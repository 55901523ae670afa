-- ===== src/Junit/Overwrite/Counts.antt =====
-- What `OverwriteXMLDuration` of go/src/dropbox/build_tools/junit/xml.go keeps of its source.
use dbx_build_tools.Base.{
  ℕ, ◌+◌, ◌≡◌, refl, subst, sym, ap, ◌∙◌, Bool, Option, none, some, List, [], ◌∷◌, ◌++◌, Str,
  length, length-append, is_nil, if◌then◌else◌, All, arith, append_assoc, append-nil, Option-cases,
  inl, inr,
}
use dbx_build_tools.Base.Result.{Result, ok, >>=-ok_inv, Result-cases}
use dbx_build_tools.Junit.{
  JunitTestCase, JunitTestSuite, JunitTestSuites, empty_suite, has_failure, has_errors, has_skip,
}
use dbx_build_tools.Junit.Overwrite.{
  Document, one, many, count_loop, extend_suite, extended, overwrite_xml_duration,
}

-- How many test cases pass a test.
abbrev pub count_where : (JunitTestCase → Bool) → List JunitTestCase → ℕ
count_where test [] = 0
count_where test (tc ∷ cases) = (if test tc then 1 else 0) + count_where test cases

-- The counts of a suite are those of its test cases.
pub record AreCounts (s : JunitTestSuite) : Type 0 where
  pub tests : s.tests ≡ length s.test_cases
  pub failures : s.failures ≡ count_where has_failure s.test_cases
  pub errors : s.errors ≡ count_where has_errors s.test_cases
  pub skips : s.skips ≡ count_where has_skip s.test_cases

abbrev pub AreAllCounts : Document → Type 0
AreAllCounts (one s) = AreCounts s
AreAllCounts (many d) = All AreCounts d.suites

abbrev pub cases_of_suites : List JunitTestSuite → List JunitTestCase
cases_of_suites [] = []
cases_of_suites (s ∷ suites) = s.test_cases ++ cases_of_suites suites

-- All the test cases of a document, in their order.
abbrev pub cases_of : Document → List JunitTestCase
cases_of (one s) = s.test_cases
cases_of (many d) = cases_of_suites d.suites

count_where-append :
    (test : JunitTestCase → Bool) (xs ys : List JunitTestCase)
    → count_where test (xs ++ ys) ≡ count_where test xs + count_where test ys
count_where-append test [] ys = omega arith
count_where-append test (tc ∷ xs) ys = omega (arith, count_where-append test xs ys)

-- The loop over the additional tests changes three counts.
record IsCounted (added : List JunitTestCase) (s s' : JunitTestSuite) : Type 0 where
  test_cases : s'.test_cases ≡ s.test_cases
  tests : s'.tests ≡ s.tests
  failures : s'.failures ≡ s.failures + count_where has_failure added
  errors : s'.errors ≡ s.errors + count_where has_errors added
  skips : s'.skips ≡ s.skips + count_where has_skip added

count_loop-IsCounted :
    (tests : List JunitTestCase) (s : JunitTestSuite) → IsCounted tests s (count_loop tests s)
unfolding count_loop
count_loop-IsCounted [] s = record {
  test_cases = refl;
  tests = refl;
  failures = omega arith;
  errors = omega arith;
  skips = omega arith;
}
count_loop-IsCounted (test ∷ tests) s =
    let next : JunitTestSuite = record s {
      failures = s.failures + (if has_failure test then 1 else 0);
      errors = s.errors + (if has_errors test then 1 else 0);
      skips = s.skips + (if has_skip test then 1 else 0);
    } in
    let r = count_loop-IsCounted tests next in
    record {
      test_cases = r.test_cases;
      tests = r.tests;
      failures = omega (arith, r.failures);
      errors = omega (arith, r.errors);
      skips = omega (arith, r.skips);
    }

extend_suite-cases :
    (time test_target : Str) (tests : List JunitTestCase) (s : JunitTestSuite)
    → (extend_suite time test_target tests s).test_cases ≡ s.test_cases ++ tests
unfolding extend_suite
extend_suite-cases time test_target tests s = (count_loop-IsCounted tests _).test_cases

extend_suite-AreCounts :
    (time test_target : Str) (tests : List JunitTestCase) (s : JunitTestSuite)
    → AreCounts s
    → AreCounts (extend_suite time test_target tests s)
unfolding extend_suite
extend_suite-AreCounts time test_target tests s counts =
    let base : JunitTestSuite = record s {
      name = if is_nil s.name then test_target else s.name;
      time = time;
      tests = s.tests + length tests;
      test_cases = s.test_cases ++ tests;
    } in
    let r = count_loop-IsCounted tests base in
    record {
      tests =
          omega (
            arith,
            r.tests,
            counts.tests,
            ap length r.test_cases,
            length-append s.test_cases tests,
          );
      failures = omega (
        arith,
        r.failures,
        counts.failures,
        ap (count_where has_failure) r.test_cases,
        count_where-append has_failure s.test_cases tests,
      );
      errors = omega (
        arith,
        r.errors,
        counts.errors,
        ap (count_where has_errors) r.test_cases,
        count_where-append has_errors s.test_cases tests,
      );
      skips = omega (
        arith,
        r.skips,
        counts.skips,
        ap (count_where has_skip) r.test_cases,
        count_where-append has_skip s.test_cases tests,
      );
    }

no_counts : AreCounts empty_suite
no_counts = record { tests = refl; failures = refl; errors = refl; skips = refl }

cases_of_suites-append :
    (xs : List JunitTestSuite) (s : JunitTestSuite)
    → cases_of_suites (xs ++ s ∷ []) ≡ cases_of_suites xs ++ s.test_cases
cases_of_suites-append [] s = append-nil s.test_cases
cases_of_suites-append (x ∷ xs) s =
    ap (λ (l : List JunitTestCase). x.test_cases ++ l) (cases_of_suites-append xs s)
    ∙ sym (append_assoc x.test_cases (cases_of_suites xs) s.test_cases)

All-snoc :
    (xs : List JunitTestSuite) (s : JunitTestSuite)
    → All AreCounts xs
    → AreCounts s
    → All AreCounts (xs ++ s ∷ [])
All-snoc [] s all one_more = (one_more, tt)
All-snoc (x ∷ xs) s (first, all) one_more = (first, All-snoc xs s all one_more)

module _ {E : Type 0} (parse_suite : Str → Result E JunitTestSuite)
    (parse_suites : Str → Result E JunitTestSuites) where
  -- The document that the source holds.
  abbrev pub IsRead : Option Str → Document → Type 0
  IsRead none before = before ≡ one empty_suite
  IsRead (some src) (one s) = parse_suite src ≡ ok s
  IsRead (some src) (many d) = parse_suites src ≡ ok d

  -- The source is read, its test cases are kept with the additional ones behind them, and its counts
  -- stay right.
  abbrev pub IsExtended : Option Str → List JunitTestCase → Document → Type 0
  IsExtended src tests doc =
      (before : Document) × IsRead src before
      × (cases_of doc ≡ cases_of before ++ tests)
      × (AreAllCounts before → AreAllCounts doc)

  extended-IsExtended :
      (src : Option Str) (seek : Option E) (time test_target : Str) (tests : List JunitTestCase)
      (doc : Document)
      → extended parse_suite parse_suites src seek time test_target tests ≡ ok doc
      → IsExtended src tests doc
  unfolding extended
  extended-IsExtended none seek time test_target tests doc h =
      let e : one (extend_suite time test_target tests empty_suite) ≡ doc = ground (arith, h) in
      subst (IsExtended none tests) e (
        one empty_suite,
        refl,
        extend_suite-cases time test_target tests empty_suite,
        extend_suite-AreCounts time test_target tests empty_suite,
      )
  extended-IsExtended (some src) seek time test_target tests doc h =
      elim (Result-cases (parse_suite src)) [
        | inr (inr p) ↦ absurd (ground (arith, h, p))
        | inl (s, p) ↦
            let e : one (extend_suite time test_target tests s) ≡ doc = ground (arith, h, p) in
            subst (IsExtended (some src) tests) e (
              one s,
              p,
              extend_suite-cases time test_target tests s,
              extend_suite-AreCounts time test_target tests s,
            )
        | inr (inl (f, p)) ↦ elim (Option-cases seek) [
          | inr (seek_err, k) ↦ absurd (ground (arith, h, p, k))
          | inl k ↦ elim (Result-cases (parse_suites src)) [
            | inr (inr q) ↦ absurd (ground (arith, h, p, k, q))
            | inr (inl (g, q)) ↦ absurd (ground (arith, h, p, k, q))
            | inl (d, q) ↦
                let added : JunitTestSuite = extend_suite time test_target tests empty_suite in
                let e : many (record d { suites = d.suites ++ added ∷ [] }) ≡ doc =
                  ground (arith, h, p, k, q) in
                subst (IsExtended (some src) tests) e (
                  many d,
                  q,
                  cases_of_suites-append d.suites added
                      ∙ ap (λ (l : List JunitTestCase). cases_of_suites d.suites ++ l)
                          (extend_suite-cases time test_target tests empty_suite),
                  λ all.
                      All-snoc d.suites added all
                        (extend_suite-AreCounts time test_target tests empty_suite no_counts),
                )
          ]
        ]
      ]

  -- A document that was written holds the test cases of its source, in their order, with the
  -- additional ones behind them; if the counts of the source's suites were those of their test cases,
  -- so are the counts of the document's.
  pub overwrite_xml_duration-IsExtended :
      (src : Option Str) (seek : Option E) (time test_target : Str) (tests : List JunitTestCase)
      (header : Option E) (encode : Document → Option E) (doc : Document)
      → overwrite_xml_duration parse_suite parse_suites src seek time test_target tests header
          encode
        ≡ ok doc
      → IsExtended src tests doc
  unfolding overwrite_xml_duration
  overwrite_xml_duration-IsExtended src seek time test_target tests header encode doc h =
      let (to_encode, e, after) =
        >>=-ok_inv (extended parse_suite parse_suites src seek time test_target tests) _ h in
      elim (Option-cases header) [
        | inr (w_err, k) ↦ absurd (ground (arith, after, k))
        | inl k ↦ elim (Option-cases (encode to_encode)) [
          | inr (f, q) ↦ absurd (ground (arith, after, k, q))
          | inl q ↦
              let same : to_encode ≡ doc = ground (arith, after, k, q) in
              subst (IsExtended src tests) same
                (extended-IsExtended src seek time test_target tests to_encode e)
        ]
      ]
