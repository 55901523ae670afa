-- ===== src/Svcinit/Tests.antt =====
-- A test that passes with a service that fails, for
-- go/src/dropbox/build_tools/svcctl/cmd/svcinit/svcinit.go.
use dbx_build_tools.Base.{ℕ, ◌≡◌, refl, true, false, ◌||◌, none, [], ◌∷◌, Str, codes}
use dbx_build_tools.Base.Result.{Result, ok, err}
use dbx_build_tools.Junit.{
  JunitTestSuite, JunitTestSuites, empty_suite, any_failing, generate_test_case,
}
use dbx_build_tools.Junit.Overwrite.{Document, one, extend_suite, overwrite_xml_duration}
use dbx_build_tools.Junit.Overwrite.Counts.{cases_of, IsRead}
use dbx_build_tools.Svcinit.{
  ServiceResult, Printing, TestInfo, any_failed, added_testcases, overwrite_junit_for_services,
  is_failing_junit,
}
use dbx_build_tools.Svcinit.Failing.{unwritten_failure, overwrite_junit-is_failing}

abbrev print : Printing
print = record {
  seconds = λ d. codes "1.5";
  whole_seconds = λ d. codes "1";
  whole_millis = λ d. codes "1500";
  itoa = λ n. codes "7";
}

abbrev crashed : ServiceResult
crashed = record {
  name = codes "db";
  start_duration = 0;
  is_failed = true;
  failure_message = record { log = codes "boom"; has_races = false };
  cpu_duration = 0;
  rss_mb = 7;
}

abbrev passed : TestInfo
passed = record {
  target = codes "t";
  binary = codes "b";
  is_failed = false;
  duration = 0;
  total_duration = 0;
  service_results = crashed ∷ [];
}

abbrev written_suite : JunitTestSuite
written_suite =
    extend_suite (codes "1.5") (codes "t") (added_testcases print none passed) empty_suite

abbrev parse_suite : Str → Result ℕ JunitTestSuite
parse_suite bytes = ok written_suite

abbrev parse_suites : Str → Result ℕ JunitTestSuites
parse_suites bytes = err 1

service_failure_shows : any_failing written_suite.test_cases ≡ true
unfolding extend_suite added_testcases generate_test_case
service_failure_shows = refl

overwrite_junit-is_failing_example :
    (before : Document) × IsRead parse_suite parse_suites none before
    × (is_failing_junit parse_suite parse_suites (codes "<testsuite>")
        ≡ ok (
            any_failing (cases_of before)
            || (unwritten_failure none passed || any_failed (crashed ∷ []))))
unfolding overwrite_junit_for_services overwrite_xml_duration
overwrite_junit-is_failing_example =
    overwrite_junit-is_failing print parse_suite parse_suites none (codes "out.xml") passed none
      none none (λ doc. none) (one written_suite) (codes "<testsuite>") refl refl
