-- ===== src/Svcinit.antt =====
-- The results of services that go/src/dropbox/build_tools/svcctl/cmd/svcinit/svcinit.go adds to those
-- of a test.
pub mod Failing
mod Tests
use dbx_build_tools.Base.{
  ℕ, ◌*◌, Bool, true, false, Option, none, some, List, [], ◌∷◌, ◌++◌, Str, codes, lookup, insert,
  is_nil, if◌then◌else◌, sort_strings,
}
use dbx_build_tools.Base.Result.{Result, ok, err, panic, ◌>>=◌}
use dbx_build_tools.Procfs.Usage.{wrap64}
use dbx_build_tools.Junit.{
  JunitTestCase, JunitTestSuite, JunitTestSuites, JunitProperty, is_some, generate_test_case,
  service_test_case_property, failed_because, suites_have_failing_test,
}
use dbx_build_tools.Junit.Overwrite.{Document, overwrite_xml_duration}

-- A failure message of the controller, and whether its type is HAS_RACES; nil has no log and none.
pub record FailureMessage : Type 0 where
  pub log : Str
  pub has_races : Bool

pub record ServiceStatus : Type 0 where
  pub service_name : Str
  pub start_duration_ms : ℕ
  pub is_error : Bool
  pub failure_message : FailureMessage

pub record ServiceMetrics : Type 0 where
  pub service_name : Str
  pub cpu_time_ms : ℕ
  pub rss_mb : ℕ

-- Durations are nanoseconds, as residues modulo 2^64.
pub record ServiceResult : Type 0 where
  pub name : Str
  pub start_duration : ℕ
  pub is_failed : Bool
  pub failure_message : FailureMessage
  pub cpu_duration : ℕ
  pub rss_mb : ℕ

-- `svcDiagnosticsMapping`
unfoldable pub metrics_map :
    List ServiceMetrics → List (Str × ServiceMetrics) → List (Str × ServiceMetrics)
unfolding insert
metrics_map [] m = m
metrics_map (svc ∷ metrics) m = metrics_map metrics (insert svc.service_name svc m)

-- The loop over the statuses.
unfoldable pub result_loop : List (Str × ServiceMetrics) → List ServiceStatus → List ServiceResult
unfolding lookup
result_loop m [] = []
result_loop m (svc ∷ statuses) =
    let metrics = lookup svc.service_name m in
    record {
      name = svc.service_name;
      start_duration = wrap64 (svc.start_duration_ms * 1000000);
      is_failed = svc.is_error;
      failure_message = svc.failure_message;
      cpu_duration = elim metrics [ none ↦ 0 | some x ↦ wrap64 (x.cpu_time_ms * 1000000) ];
      rss_mb = elim metrics [ none ↦ 0 | some x ↦ x.rss_mb ];
    }
    ∷ result_loop m statuses

-- `getServiceStatusAndDiagnostics`: results and an error or nil. When only the second call fails, it
-- returns the error of the first, which is nil.
unfoldable pub get_service_status_and_diagnostics :
    {E : Type 0}
    → Result E (List ServiceStatus)
    → Result E (List ServiceMetrics)
    → Result E (List ServiceResult × Option E)
unfolding metrics_map result_loop
get_service_status_and_diagnostics panic diagnostics = panic
get_service_status_and_diagnostics (err e) diagnostics = ok ([], some e)
get_service_status_and_diagnostics (ok statuses) panic = panic
get_service_status_and_diagnostics (ok statuses) (err e) = ok ([], none)
get_service_status_and_diagnostics (ok statuses) (ok metrics) =
    ok (result_loop (metrics_map metrics []) statuses, none)

unfoldable pub failing_names : List ServiceResult → List Str
failing_names [] = []
failing_names (svc ∷ services) =
    let rest = failing_names services in if svc.is_failed then svc.name ∷ rest else rest

-- `Err`: nil, or the sorted names that its text lists.
unfoldable pub unhealthy : List ServiceResult → Option (List Str)
unfolding failing_names sort_strings
unhealthy s =
    let names = failing_names s in if is_nil names then none else some (sort_strings names)

unfoldable pub any_failed : List ServiceResult → Bool
unfolding unhealthy
any_failed s = is_some (unhealthy s)

-- How numbers are written: a duration with "%f" seconds, in whole seconds and in whole milliseconds,
-- and a number.
pub record Printing : Type 0 where
  pub seconds : ℕ → Str
  pub whole_seconds : ℕ → Str
  pub whole_millis : ℕ → Str
  pub itoa : ℕ → Str

-- `failMsg`
unfoldable pub fail_msg : ServiceResult → Str
fail_msg svc =
    let text =
      codes "Service "
      ++ (svc.name
          ++ codes
              " failed\nhttps://dbx.link/effective-integration-testing includes tools that may help diagnose service issues in service-heavy targets.") in
    if svc.is_failed
    then (if is_nil svc.failure_message.log then text else text ++ 10 ∷ svc.failure_message.log)
    else []

module _ (print : Printing) where
  -- One round of the loop of `junitTestcasesForServices`.
  unfoldable pub junit_testcase_for_service : Str → ServiceResult → JunitTestCase
  unfolding generate_test_case service_test_case_property failed_because fail_msg
  junit_testcase_for_service test_target svc =
      let tc =
        generate_test_case print.seconds test_target svc.name svc.start_duration (fail_msg svc)
          (service_test_case_property ∷ []) in
      let races =
        if svc.failure_message.has_races
        then tc.properties ++ failed_because (codes "has-races") ∷ []
        else tc.properties in
      record tc {
        properties =
            races
            ++ record { name = codes "svc-sec"; value = print.whole_seconds svc.start_duration }
              ∷ record { name = codes "cpu-ms"; value = print.whole_millis svc.cpu_duration }
              ∷ record { name = codes "rss-mb"; value = print.itoa svc.rss_mb }
              ∷ [];
      }

  unfoldable pub junit_testcases_for_services : Str → List ServiceResult → List JunitTestCase
  unfolding junit_testcase_for_service
  junit_testcases_for_services test_target [] = []
  junit_testcases_for_services test_target (svc ∷ services) =
      junit_testcase_for_service test_target svc ∷ junit_testcases_for_services test_target services

pub record TestInfo : Type 0 where
  pub target : Str
  pub binary : Str
  pub is_failed : Bool
  pub duration : ℕ
  pub total_duration : ℕ
  pub service_results : List ServiceResult

-- `markRacedAsFailed`
unfoldable pub mark_raced_as_failed : List ServiceResult → List ServiceResult
mark_raced_as_failed [] = []
mark_raced_as_failed (s ∷ services) =
    record s { is_failed = s.failure_message.has_races } ∷ mark_raced_as_failed services

module _ (print : Printing) where
  -- The test cases that `overwriteJunitForServices` adds; `none` is a source that is nil.
  unfoldable pub added_testcases : Option Str → TestInfo → List JunitTestCase
  unfolding generate_test_case junit_testcases_for_services
  added_testcases src ti =
      let services = junit_testcases_for_services print ti.target ti.service_results in
      elim src [
        | some _ ↦ services
        | none ↦
            generate_test_case print.seconds ti.target ti.binary ti.duration
              (if ti.is_failed then codes "Test failed" else []) []
            ∷ services
      ]

module _ {E : Type 0} (print : Printing) (parse_suite : Str → Result E JunitTestSuite)
    (parse_suites : Str → Result E JunitTestSuites) where
  -- `overwriteJunitForServices`, with the document that it has written, if any; `create`, `seek`,
  -- `header` and `encode` are the errors of the file system and the encoder.
  unfoldable pub overwrite_junit_for_services :
      Option Str
      → Str
      → TestInfo
      → Option E
      → Option E
      → Option E
      → (Document → Option E)
      → Result E (Option Document)
  unfolding added_testcases overwrite_xml_duration
  overwrite_junit_for_services src output_file ti create seek header encode =
      if is_nil output_file then ok none else elim create [
        | some e ↦ err e
        | none ↦
            overwrite_xml_duration parse_suite parse_suites src seek
              (print.seconds ti.total_duration) ti.target (added_testcases print src ti) header
              encode
            >>= λ doc. ok (some doc)
      ]

module _ {E : Type 0} (parse_suite : Str → Result E JunitTestSuite)
    (parse_suites : Str → Result E JunitTestSuites) where
  -- `isFailingJUnit`
  unfoldable pub is_failing_junit : Str → Result E Bool
  unfolding suites_have_failing_test
  is_failing_junit bytes = elim (parse_suite bytes) [
    | panic ↦ panic
    | ok suite ↦ ok (suites_have_failing_test (record { time = []; suites = suite ∷ [] }))
    | err _ ↦ parse_suites bytes >>= λ s. ok (suites_have_failing_test s)
  ]
