-- ===== src/Junit/Events/Kinds.antt =====
-- What each kind of event does, in go/src/dropbox/build_tools/gojunit/gojunit.go.
use dbx_build_tools.Base.{
  ◌≡◌, refl, false, [], ◌++◌, Str, str_eq, codes, is_nil, insert, arith, Bool-cases, ◌⊎◌, inl, inr,
}
use dbx_build_tools.Base.Result.{Result, ok}
use dbx_build_tools.Junit.{JunitTestCase, empty_case}
use dbx_build_tools.Junit.Events.{
  Event, ParsedEvents, NoError, end_test, write_output, handle, skipped, failed,
}

module _ {F : Type 0} (add : F → F → F) (show_seconds : F → Str) (prefix : Str) where
  abbrev pub ran : Event F → ParsedEvents F → ParsedEvents F
  ran event p = record p {
    test_cases = insert event.test (record empty_case { name = prefix ++ event.test }) p.test_cases;
    output_buffers = insert event.test [] p.output_buffers;
  }

  -- What an event does, in any state.
  abbrev pub Does : Event F → (ParsedEvents F → Result NoError (ParsedEvents F)) → Type 0
  Does event does = (p : ParsedEvents F) → handle add show_seconds prefix event p ≡ does p

  ended :
      (event : Event F)
      → str_eq event.action (codes "run") ≡ false
      → str_eq event.action (codes "cont") ≡ false
      → str_eq event.action (codes "output") ≡ false
      → is_nil event.test ≡ false
      → Does event (λ p. ok p)
        ⊎ ((change : JunitTestCase → JunitTestCase) × Does event
              (end_test add show_seconds event change))
  unfolding handle
  ended event a b c z = elim (Bool-cases (str_eq event.action (codes "pass"))) [
    | inl d ↦ inr (λ tc. tc, λ p. rw (a, b, c, d, z) refl)
    | inr d ↦ elim (Bool-cases (str_eq event.action (codes "skip"))) [
      | inl f ↦ inr (skipped, λ p. rw (a, b, c, d, f, z) refl)
      | inr f ↦ elim (Bool-cases (str_eq event.action (codes "fail"))) [
        | inl g ↦ inr (failed, λ p. rw (a, b, c, d, f, g, z) refl)
        | inr g ↦ inl (λ p. rw (a, b, c, d, f, g) refl)
      ]
    ]
  ]

  pub handle-cases :
      (event : Event F)
      → Does event (λ p. ok (ran event p))
        ⊎ Does event (λ p. ok p)
        ⊎ Does event (write_output event)
        ⊎ ((change : JunitTestCase → JunitTestCase) × Does event
              (end_test add show_seconds event change))
  unfolding handle
  handle-cases event = elim (Bool-cases (str_eq event.action (codes "run"))) [
    | inl a ↦ inl (λ p. rw (a) refl)
    | inr a ↦ elim (Bool-cases (str_eq event.action (codes "cont"))) [
      | inl b ↦ inr (inl (λ p. rw (a, b) refl))
      | inr b ↦ elim (Bool-cases (str_eq event.action (codes "output"))) [
        | inl c ↦ elim (Bool-cases (is_nil event.test)) [
          | inl z ↦ inr (inl (λ p. rw (a, b, c, z) refl))
          | inr z ↦ inr (inr (inl (λ p. rw (a, b, c, z) refl)))
        ]
        | inr c ↦ elim (Bool-cases (is_nil event.test)) [
          | inl z ↦ inr (inl (λ p. ground (arith, a, b, c, z)))
          | inr z ↦ elim (ended event a b c z) [ inl i ↦ inr (inl i) | inr e ↦ inr (inr (inr e)) ]
        ]
      ]
    ]
  ]
