-- ===== src/Junit/Events.antt =====
-- `ParseEvents` of go/src/dropbox/build_tools/gojunit/gojunit.go.
pub mod Tabs
pub mod Kinds
pub mod Alone
pub mod Interleaved
use dbx_build_tools.Base.{
  ℕ, ◌+◌, ◌-◌, ◌%◌, Bool, true, false, ◌&&◌, Option, none, some, List, [], ◌∷◌, ◌++◌, ◌==◌, Str,
  str_eq, codes, length, replicate, is_nil, if◌then◌else◌, split, lookup, insert,
}
use dbx_build_tools.Base.Result.{Result, ok, err, panic, ◌>>=◌}
use dbx_build_tools.Junit.{JunitTestCase, JunitSkipMessage, JunitFailure, empty_case}

-- The loop of `expandTabs`, on the bytes of UTF-8 text.
unfoldable pub tabs_loop : ℕ → Str → Str → Str
tabs_loop tab_length [] buffer = buffer
tabs_loop tab_length (r ∷ input) buffer = tabs_loop tab_length input (
    if r == 9
    then buffer ++ replicate (tab_length - length buffer % tab_length) 32
    else buffer ++ r ∷ [])

unfoldable pub expand_tabs : Str → ℕ → Str
unfolding tabs_loop
expand_tabs input tab_length = tabs_loop tab_length input []

-- `strings.Replace(s, "\r\n", "\n", -1)`
unfoldable pub replace_crlf : Str → Str
replace_crlf [] = []
replace_crlf (c ∷ []) = c ∷ []
replace_crlf (c ∷ d ∷ s) =
    let rest = replace_crlf s in
    let later = replace_crlf (d ∷ s) in if (c == 13) && (d == 10) then 10 ∷ rest else c ∷ later

-- `carriageSplit[len(carriageSplit)-1]`, where a split is never empty.
abbrev pub last_split : List Str → Str
last_split [] = []
last_split (piece ∷ []) = piece
last_split (piece ∷ next ∷ pieces) = last_split (next ∷ pieces)

unfoldable pub actual_output : Str → Str
unfolding replace_crlf split expand_tabs
actual_output output = expand_tabs (last_split (split (replace_crlf output) 13)) 8

-- Sums of seconds are a parameter: `F` is float64, and `show_seconds` its print with "%f".
pub record Event (F : Type 0) : Type 0 where
  pub action : Str
  pub test : Str
  pub elapsed : Option F
  pub output : Str

pub record ParsedEvents (F : Type 0) : Type 0 where
  pub test_cases : List (Str × JunitTestCase)
  pub output_buffers : List (Str × Str)
  pub elapsed_time : F

-- The errors of `ParseEvents`: it has none but its panics.
pub data NoError : Type 0 where

unfoldable pub write_output :
    {F : Type 0} → Event F → ParsedEvents F → Result NoError (ParsedEvents F)
unfolding lookup insert actual_output
write_output event p = elim (lookup event.test p.output_buffers) [
  | none ↦ panic
  | some buffer ↦ ok (record p {
    output_buffers = insert event.test (buffer ++ actual_output event.output) p.output_buffers;
  })
]

abbrev pub skipped : JunitTestCase → JunitTestCase
skipped tc = record tc { skip_message = some (record { message = codes "go test skipped" }) }

abbrev pub failed : JunitTestCase → JunitTestCase
failed tc = record tc {
  failure = some (record { message = codes "go test failed"; failure_type = []; contents = [] });
}

module _ {F : Type 0} (add : F → F → F) (show_seconds : F → Str) where
  -- `*event.Elapsed`, the sum, and the time of a test case, with its other changes.
  unfoldable pub end_test :
      Event F → (JunitTestCase → JunitTestCase) → ParsedEvents F → Result NoError (ParsedEvents F)
  unfolding lookup insert
  end_test event change p = elim event.elapsed [
    | none ↦ panic
    | some elapsed ↦ elim (lookup event.test p.test_cases) [
      | none ↦ panic
      | some tc ↦ ok (record p {
        test_cases =
            insert event.test (change (record tc { time = show_seconds elapsed })) p.test_cases;
        elapsed_time = add p.elapsed_time elapsed;
      })
    ]
  ]

  -- The `switch` of `ParseEvents`.
  unfoldable pub handle : Str → Event F → ParsedEvents F → Result NoError (ParsedEvents F)
  unfolding end_test write_output insert str_eq
  handle prefix event p =
      let ran = record p {
        test_cases =
            insert event.test (record empty_case { name = prefix ++ event.test }) p.test_cases;
        output_buffers = insert event.test [] p.output_buffers;
      } in
      if str_eq event.action (codes "run")
      then ok ran
      else if str_eq event.action (codes "cont")
      then ok p
      else if str_eq event.action (codes "output")
      then (if is_nil event.test then ok p else write_output event p)
      else if str_eq event.action (codes "pass")
      then (if is_nil event.test then ok p else end_test event (λ tc. tc) p)
      else if str_eq event.action (codes "skip")
      then (if is_nil event.test then ok p else end_test event skipped p)
      else if str_eq event.action (codes "fail")
      then (if is_nil event.test then ok p else end_test event failed p)
      else ok p

  unfoldable pub handle_all :
      Str → List (Event F) → ParsedEvents F → Result NoError (ParsedEvents F)
  unfolding handle
  handle_all prefix [] p = ok p
  handle_all prefix (event ∷ events) p = handle prefix event p >>= λ q. handle_all prefix events q

  -- `testCase.SystemOut = outputBuffers[testName].String()`, where a nil buffer is "<nil>".
  unfoldable pub with_output : List (Str × Str) → List (Str × JunitTestCase) → List JunitTestCase
  unfolding lookup
  with_output buffers [] = []
  with_output buffers ((test_name, tc) ∷ cases) =
      record tc {
        system_out = elim (lookup test_name buffers) [
          | none ↦ codes "<nil>"
          | some buffer ↦ buffer
        ];
      }
      ∷ with_output buffers cases

  -- `ParseEvents`, with its test cases in the order of the map.
  unfoldable pub parse_events : Str → List (Event F) → F → Result NoError (List JunitTestCase × F)
  unfolding handle_all with_output
  parse_events prefix events zero_seconds =
      handle_all prefix events
        (record { test_cases = []; output_buffers = []; elapsed_time = zero_seconds })
      >>= λ p. ok (with_output p.output_buffers p.test_cases, p.elapsed_time)
