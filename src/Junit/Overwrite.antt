-- ===== src/Junit/Overwrite.antt =====
-- `OverwriteXMLDuration` and `ParseAsSuites` of go/src/dropbox/build_tools/junit/xml.go.
pub mod Counts
use dbx_build_tools.Base.{
  ℕ, ◌+◌, ◌≡◌, refl, sym, ap, ◌∙◌, Bool, true, false, ◌||◌, Option, none, some, List, [], ◌∷◌, ◌++◌,
  Str, length, length-append, is_nil, if◌then◌else◌, All, arith,
}
use dbx_build_tools.Base.Result.{Result, ok, err, panic, ◌>>=◌, Result-cases}
use dbx_build_tools.Junit.{
  JunitTestCase, JunitTestSuite, JunitTestSuites, empty_suite, has_failure, has_errors, has_skip,
  suite_has_failing_test, suites_have_failing_test, any_failing, any_suite_failing,
}

-- What is encoded: a suite or suites.
pub data Document : Type 0 where
  one : JunitTestSuite → Document
  many : JunitTestSuites → Document

-- The loop over the additional tests.
unfoldable pub count_loop : List JunitTestCase → JunitTestSuite → JunitTestSuite
count_loop [] suite = suite
count_loop (test ∷ tests) suite = count_loop tests (record suite {
  failures = suite.failures + (if has_failure test then 1 else 0);
  errors = suite.errors + (if has_errors test then 1 else 0);
  skips = suite.skips + (if has_skip test then 1 else 0);
})

-- The changes to `*suite`.
unfoldable pub extend_suite : Str → Str → List JunitTestCase → JunitTestSuite → JunitTestSuite
unfolding count_loop
extend_suite time test_target additional_tests suite = count_loop additional_tests (record suite {
  name = if is_nil suite.name then test_target else suite.name;
  time = time;
  tests = suite.tests + length additional_tests;
  test_cases = suite.test_cases ++ additional_tests;
})

-- The decoder and the reader, the writer and the encoder are parameters: an error of the last three
-- is `some`.
module _ {E : Type 0} (parse_suite : Str → Result E JunitTestSuite)
    (parse_suites : Str → Result E JunitTestSuites) where
  -- The document that `OverwriteXMLDuration` changes; `none` is a source that is nil.
  unfoldable pub extended :
      Option Str → Option E → Str → Str → List JunitTestCase → Result E Document
  unfolding extend_suite
  extended none seek time test_target tests =
      ok (one (extend_suite time test_target tests empty_suite))
  extended (some src) seek time test_target tests = elim (parse_suite src) [
    | panic ↦ panic
    | ok suite ↦ ok (one (extend_suite time test_target tests suite))
    | err parse_err ↦ elim seek [
      | some seek_err ↦ err seek_err
      | none ↦ elim (parse_suites src) [
        | panic ↦ panic
        | err _ ↦ err parse_err
        | ok s ↦ ok (
            many (record s {
              suites = s.suites ++ extend_suite time test_target tests empty_suite ∷ [];
            }))
      ]
    ]
  ]

  -- `OverwriteXMLDuration`, with the document that it has encoded.
  unfoldable pub overwrite_xml_duration :
      Option Str
      → Option E
      → Str
      → Str
      → List JunitTestCase
      → Option E
      → (Document → Option E)
      → Result E Document
  unfolding extended
  overwrite_xml_duration src seek time test_target tests header encode =
      extended src seek time test_target tests >>= λ to_encode. elim header [
        | some w_err ↦ err w_err
        | none ↦ elim (encode to_encode) [ some e ↦ err e | none ↦ ok to_encode ]
      ]

  -- `ParseAsSuites`; `both` puts two errors in one.
  unfoldable pub parse_as_suites : (E → E → E) → Str → Result E JunitTestSuites
  parse_as_suites both b = elim (parse_suites b) [
    | panic ↦ panic
    | ok suites ↦ ok suites
    | err perr ↦ elim (parse_suite b) [
      | panic ↦ panic
      | err paerr ↦ err (both perr paerr)
      | ok suite ↦ ok (record { time = []; suites = suite ∷ [] })
    ]
  ]
