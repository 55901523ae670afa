-- ===== src/Junit/Tests.antt =====
-- Runs of the models of go/src/dropbox/build_tools/junit and go/src/dropbox/build_tools/gojunit.
use dbx_build_tools.Base.{
  ℕ, ◌+◌, ◌≡◌, refl, Option, none, some, List, [], ◌∷◌, Str, codes, replicate,
}
use dbx_build_tools.Base.Result.{Result, ok, err}
use dbx_build_tools.Junit.{JunitTestCase, JunitTestSuite, JunitTestSuites, empty_case, empty_suite}
use dbx_build_tools.Junit.Overwrite.{Document, overwrite_xml_duration}
use dbx_build_tools.Junit.Overwrite.Counts.{IsExtended, overwrite_xml_duration-IsExtended}
use dbx_build_tools.Junit.Events.{Event, ParsedEvents, handle_all}
use dbx_build_tools.Junit.Events.Alone.{only, Agree}
use dbx_build_tools.Junit.Events.Interleaved.{handle_all-Agree}

-- A source that holds two suites, and is no suite by itself.
abbrev broken : JunitTestCase
broken = record empty_case {
  failure = some (record { message = []; failure_type = []; contents = [] });
}

abbrev one_suite : JunitTestSuite
one_suite = record empty_suite { tests = 1; failures = 1; test_cases = broken ∷ [] }

abbrev parse_suite : Str → Result ℕ JunitTestSuite
parse_suite src = err 1

abbrev parse_suites : Str → Result ℕ JunitTestSuites
parse_suites src = ok (record { time = []; suites = one_suite ∷ [] })

abbrev written : Document
written = Document.many (record {
  time = [];
  suites =
      one_suite
      ∷ record empty_suite {
        name = codes "target";
        time = codes "1.5";
        tests = 2;
        failures = 1;
        test_cases = empty_case ∷ broken ∷ [];
      }
      ∷ [];
})

overwrite_xml_duration-IsExtended_example :
    IsExtended parse_suite parse_suites
      (some (codes "<testsuites>"))
      (empty_case ∷ broken ∷ [])
      written
overwrite_xml_duration-IsExtended_example =
    overwrite_xml_duration-IsExtended parse_suite parse_suites (some (codes "<testsuites>")) none
      (codes "1.5") (codes "target") (empty_case ∷ broken ∷ []) none (λ doc. none) written
      (unfold overwrite_xml_duration in refl)

abbrev unary : ℕ → Str
unary n = replicate n 120

abbrev event : Str → Str → Option ℕ → Event ℕ
event action test elapsed = record {
  action = action;
  test = test;
  elapsed = elapsed;
  output = codes "x";
}

-- The test A fails while B runs.
abbrev events : List (Event ℕ)
events =
    event (codes "run") (codes "A") none
    ∷ event (codes "run") (codes "B") none
    ∷ event (codes "output") (codes "A") none
    ∷ event (codes "output") (codes "B") none
    ∷ event (codes "fail") (codes "A") (some 2)
    ∷ []

abbrev nothing : ParsedEvents ℕ
nothing = record { test_cases = []; output_buffers = []; elapsed_time = 0 }

abbrev add : ℕ → ℕ → ℕ
add m n = m + n

abbrev both_tests : ParsedEvents ℕ
both_tests = record {
  test_cases =
      (
        codes "A",
        record empty_case {
          name = codes "p.A";
          time = unary 2;
          failure =
              some (record { message = codes "go test failed"; failure_type = []; contents = [] });
        },
      )
      ∷ (codes "B", record empty_case { name = codes "p.B" })
      ∷ [];
  output_buffers = (codes "A", codes "x") ∷ (codes "B", codes "x") ∷ [];
  elapsed_time = 2;
}

handle_all-Agree_example :
    (alone : ParsedEvents ℕ) × (handle_all add unary (codes "p.") (only (codes "A") events) nothing
      ≡ ok alone)
    × Agree (codes "A") both_tests alone
handle_all-Agree_example =
    handle_all-Agree add unary (codes "p.") (codes "A") events nothing nothing both_tests
      (record { cases = refl; buffers = refl }) (unfold handle_all in refl)
