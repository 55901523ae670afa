-- ===== src/Junit.antt =====
-- The test suites of go/src/dropbox/build_tools/junit/xml.go and the operations on them.
pub mod Overwrite
pub mod Names
pub mod Events
mod Tests
use dbx_build_tools.Base.{
  ℕ, ◌+◌, ◌%◌, ◌<◌, Bool, true, false, ◌||◌, ◌&&◌, Option, none, some, List, [], ◌∷◌, ◌++◌, ◌==◌,
  Str, str_eq, codes, length, is_nil, if◌then◌else◌, ltb,
}
use dbx_build_tools.Base.Result.{Result, ok, err, panic, ◌>>=◌}

pub record JunitArtifact : Type 0 where
  pub base64 : Str
  pub name : Str
  pub artifact_type : Str

pub record JunitSkipMessage : Type 0 where
  pub message : Str

pub record JunitError : Type 0 where
  pub message : Str
  pub contents : Str

pub record JunitProperty : Type 0 where
  pub name : Str
  pub value : Str

pub record JunitFailure : Type 0 where
  pub message : Str
  pub failure_type : Str
  pub contents : Str

pub record JunitTestCase : Type 0 where
  pub classname : Str
  pub file : Str
  pub line : Str
  pub name : Str
  pub time : Str
  pub skip_message : Option JunitSkipMessage
  pub failure : Option JunitFailure
  pub system_out : Str
  pub system_err : Str
  pub properties : List JunitProperty
  pub errors : Option JunitError
  pub rerun : Str
  pub artifacts : List JunitArtifact

pub record JunitTestSuite : Type 0 where
  pub errors : ℕ
  pub failures : ℕ
  pub name : Str
  pub skips : ℕ
  pub tests : ℕ
  pub time : Str
  pub properties : List JunitProperty
  pub test_cases : List JunitTestCase

pub record JunitTestSuites : Type 0 where
  pub time : Str
  pub suites : List JunitTestSuite

-- The zero values of Go.
abbrev pub empty_case : JunitTestCase
empty_case = record {
  classname = [];
  file = [];
  line = [];
  name = [];
  time = [];
  skip_message = none;
  failure = none;
  system_out = [];
  system_err = [];
  properties = [];
  errors = none;
  rerun = [];
  artifacts = [];
}

abbrev pub empty_suite : JunitTestSuite
empty_suite = record {
  errors = 0;
  failures = 0;
  name = [];
  skips = 0;
  tests = 0;
  time = [];
  properties = [];
  test_cases = [];
}

-- `p != nil`
abbrev pub is_some : {A : Type 0} → Option A → Bool
is_some none = false
is_some (some a) = true

abbrev pub has_failure : JunitTestCase → Bool
has_failure tc = is_some tc.failure

abbrev pub has_errors : JunitTestCase → Bool
has_errors tc = is_some tc.errors

abbrev pub has_skip : JunitTestCase → Bool
has_skip tc = is_some tc.skip_message

abbrev pub any_failing : List JunitTestCase → Bool
any_failing [] = false
any_failing (tc ∷ cases) = (has_failure tc || has_errors tc) || any_failing cases

-- `JUnitTestSuite.HasFailingTest`
unfoldable pub suite_has_failing_test : JunitTestSuite → Bool
suite_has_failing_test s = any_failing s.test_cases

unfoldable pub any_suite_failing : List JunitTestSuite → Bool
unfolding suite_has_failing_test
any_suite_failing [] = false
any_suite_failing (s ∷ suites) =
    unfold suite_has_failing_test in suite_has_failing_test s || any_suite_failing suites

-- `JUnitTestSuites.HasFailingTest`
unfoldable pub suites_have_failing_test : JunitTestSuites → Bool
unfolding any_suite_failing
suites_have_failing_test s = any_suite_failing s.suites

-- The loop of `GetProperty`
unfoldable pub find_property : Str → List JunitProperty → Option Str
find_property name [] = none
find_property name (p ∷ properties) =
    let rest = find_property name properties in if str_eq p.name name then some p.value else rest

unfoldable pub get_property : JunitTestCase → Str → Option Str
unfolding find_property
get_property tc name = find_property name tc.properties

abbrev pub failure_reason_property_name : Str
failure_reason_property_name = codes "failure-reason"

abbrev pub test_case_type_property_name : Str
test_case_type_property_name = codes "test-type"

abbrev pub service_test_case : Str
service_test_case = codes "service"

unfoldable pub failed_because : Str → JunitProperty
failed_because reason = record { name = failure_reason_property_name; value = reason }

unfoldable pub service_test_case_property : JunitProperty
service_test_case_property = record {
  name = test_case_type_property_name;
  value = service_test_case;
}

unfoldable pub get_failure_reason : JunitTestCase → Option Str
unfolding get_property
get_failure_reason tc = get_property tc failure_reason_property_name

-- `TestType`
unfoldable pub test_type : JunitTestCase → Option Str
unfolding find_property
test_type tc = find_property test_case_type_property_name tc.properties

unfoldable pub get_canonical_name : JunitTestCase → Str
get_canonical_name tc =
    if is_nil tc.classname then tc.name else tc.classname ++ codes "." ++ tc.name

-- `Reruns`, where `parse_int` is ParseInt to base 10 and 32 bits, and an `int`
-- is its residue.
unfoldable pub reruns : (Str → Option ℕ) → JunitTestCase → ℕ
reruns parse_int tc = elim (parse_int tc.rerun) [ none ↦ 0 | some n ↦ n ]

-- `GenerateTestCase`; `seconds` writes a duration in seconds.
unfoldable pub generate_test_case :
    (ℕ → Str) → Str → Str → ℕ → Str → List JunitProperty → JunitTestCase
generate_test_case seconds class testname duration failure_message properties = record empty_case {
  classname = class;
  name = testname;
  time = seconds duration;
  failure =
      if is_nil failure_message
      then none
      else some (record { message = []; failure_type = []; contents = failure_message });
  properties = properties;
}
