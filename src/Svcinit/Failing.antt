-- ===== src/Svcinit/Failing.antt =====
-- Whether the results that go/src/dropbox/build_tools/svcctl/cmd/svcinit/svcinit.go writes fail.
use dbx_build_tools.Base.{
  ◌≡◌, refl, sym, ap, ◌∙◌, subst, Bool, false, ◌||◌, Option, none, some, List, [], ◌∷◌, ◌++◌, Str,
  is_nil, arith, Bool-cases, Option-cases, inl, inr,
}
use dbx_build_tools.Base.Result.{Result, ok, err, >>=-ok_inv, ◌>>=◌}
use dbx_build_tools.Junit.{
  JunitTestCase, JunitTestSuite, JunitTestSuites, has_failure, has_errors, any_failing,
  any_suite_failing, suite_has_failing_test, suites_have_failing_test, generate_test_case,
}
use dbx_build_tools.Junit.Overwrite.{Document, one, many, overwrite_xml_duration}
use dbx_build_tools.Junit.Overwrite.Counts.{
  cases_of, cases_of_suites, IsRead, overwrite_xml_duration-IsExtended,
}
use dbx_build_tools.Svcinit.{
  ServiceResult, failing_names, unhealthy, any_failed, Printing, fail_msg,
  junit_testcase_for_service, junit_testcases_for_services, TestInfo, added_testcases,
  overwrite_junit_for_services, is_failing_junit,
}

any_failing-append :
    (xs ys : List JunitTestCase) → any_failing (xs ++ ys) ≡ (any_failing xs || any_failing ys)
any_failing-append [] ys = refl
any_failing-append (tc ∷ xs) ys = ground (arith, any_failing-append xs ys)

any_suite_failing-cases :
    (suites : List JunitTestSuite) → any_suite_failing suites ≡ any_failing (cases_of_suites suites)
unfolding any_suite_failing suite_has_failing_test
any_suite_failing-cases [] = refl
any_suite_failing-cases (s ∷ suites) = ground (
  arith,
  any_suite_failing-cases suites,
  any_failing-append s.test_cases (cases_of_suites suites),
)

fails_iff :
    (print : Printing) (target : Str) (svc : ServiceResult)
    → (has_failure (junit_testcase_for_service print target svc)
        || has_errors (junit_testcase_for_service print target svc))
      ≡ svc.is_failed
unfolding junit_testcase_for_service generate_test_case fail_msg
fails_iff print target svc = elim (Bool-cases svc.is_failed) [
  | inl e ↦ elim (Bool-cases (is_nil svc.failure_message.log)) [
    | inl n ↦ rw (e, n) refl
    | inr n ↦ rw (e, n) refl
  ]
  | inr e ↦ rw (e) refl
]

-- One of the services failed.
abbrev pub some_failed : List ServiceResult → Bool
some_failed [] = false
some_failed (svc ∷ services) = svc.is_failed || some_failed services

any_failed_lem : (services : List ServiceResult) → any_failed services ≡ some_failed services
unfolding any_failed unhealthy failing_names
any_failed_lem [] = refl
any_failed_lem (svc ∷ services) = elim (Bool-cases svc.is_failed) [
  | inl e ↦ rw (e) refl
  | inr e ↦ rw (e) (any_failed_lem services)
]

testcases-any_failing :
    (print : Printing) (target : Str) (services : List ServiceResult)
    → any_failing (junit_testcases_for_services print target services) ≡ any_failed services
unfolding junit_testcases_for_services
testcases-any_failing print target services = all services ∙ sym (any_failed_lem services)
  where
    all :
        (services : List ServiceResult)
        → any_failing (junit_testcases_for_services print target services) ≡ some_failed services
    all [] = refl
    all (svc ∷ services) = ground (arith, all services, fails_iff print target svc)

-- The test failed, and has written no results itself.
abbrev pub unwritten_failure : Option Str → TestInfo → Bool
unwritten_failure none ti = ti.is_failed
unwritten_failure (some src) ti = false

module _ {E : Type 0} (print : Printing) (parse_suite : Str → Result E JunitTestSuite)
    (parse_suites : Str → Result E JunitTestSuites) where
  added_testcases-any_failing :
      (src : Option Str) (ti : TestInfo)
      → any_failing (added_testcases print src ti)
        ≡ (unwritten_failure src ti || any_failed ti.service_results)
  unfolding added_testcases generate_test_case
  added_testcases-any_failing none ti = elim (Bool-cases ti.is_failed) [
    | inl e ↦ rw (e) refl
    | inr e ↦ rw (e) (testcases-any_failing print ti.target ti.service_results)
  ]
  added_testcases-any_failing (some src) ti =
      testcases-any_failing print ti.target ti.service_results

  -- The bytes that encode a document.
  abbrev pub IsDecoded : Str → Document → Type 0
  IsDecoded bytes (one s) = parse_suite bytes ≡ ok s
  IsDecoded bytes (many d) = (e : E) × (parse_suite bytes ≡ err e) × (parse_suites bytes ≡ ok d)

  is_failing_junit-cases :
      (bytes : Str) (doc : Document)
      → IsDecoded bytes doc
      → is_failing_junit parse_suite parse_suites bytes ≡ ok (any_failing (cases_of doc))
  unfolding is_failing_junit suites_have_failing_test
  is_failing_junit-cases bytes (one s) h =
      rw (is_failing_junit, h) (ap ok (unfold suite_has_failing_test in ground arith))
  is_failing_junit-cases bytes (many d) (e, h, k) =
      rw (is_failing_junit, h, k) (ap ok (any_suite_failing-cases d.suites))

  -- After a document is written over the results of a test, the check of the written results finds a
  -- failure exactly if the results of the test held one, or the test failed without writing results,
  -- or a service failed.
  pub overwrite_junit-is_failing :
      (src : Option Str) (output_file : Str) (ti : TestInfo) (create seek header : Option E)
      (encode : Document → Option E) (doc : Document) (bytes : Str)
      → overwrite_junit_for_services print parse_suite parse_suites src output_file ti create seek
          header encode
        ≡ ok (some doc)
      → IsDecoded bytes doc
      → (before : Document) × IsRead parse_suite parse_suites src before
        × (is_failing_junit parse_suite parse_suites bytes
            ≡ ok (
                any_failing (cases_of before)
                || (unwritten_failure src ti || any_failed ti.service_results)))
  unfolding overwrite_junit_for_services
  overwrite_junit-is_failing src output_file ti create seek header encode doc bytes h decoded =
      elim (Bool-cases (is_nil output_file)) [
        | inl n ↦ absurd (ground (arith, h, n))
        | inr n ↦ elim (Option-cases create) [
          | inr (e, c) ↦ absurd (ground (arith, h, n, c))
          | inl c ↦
              let written : (overwrite_xml_duration parse_suite parse_suites src seek
                      (print.seconds ti.total_duration) ti.target (added_testcases print src ti)
                      header encode
                    >>= (λ d. ok (some d)))
                  ≡ ok (some doc) =
                ground (arith, h, n, c) in
              let (d, run, last) = >>=-ok_inv _ (λ (d : Document). ok (some d)) written in
              let same : d ≡ doc = ground (arith, last) in
              let (before, read, all, counts) =
                overwrite_xml_duration-IsExtended parse_suite parse_suites src seek
                  (print.seconds ti.total_duration) ti.target (added_testcases print src ti) header
                  encode doc
                  (subst
                    (λ x.
                      overwrite_xml_duration parse_suite parse_suites src seek
                        (print.seconds ti.total_duration) ti.target (added_testcases print src ti)
                        header encode
                      ≡ ok x)
                    same run) in
              (
                before,
                read,
                is_failing_junit-cases bytes doc decoded
                    ∙ ap ok (
                        ap any_failing all
                        ∙ any_failing-append (cases_of before) (added_testcases print src ti)
                        ∙ ap (λ b. any_failing (cases_of before) || b)
                            (added_testcases-any_failing src ti)),
              )
        ]
      ]
