-- ===== src/Junit/Events/Alone.antt =====
-- The events of one test in go/src/dropbox/build_tools/gojunit/gojunit.go, among those of the others.
use dbx_build_tools.Base.{
  ◌≡◌, refl, sym, ◌∙◌, subst, false, some, List, [], ◌∷◌, ◌++◌, Str, str_eq, str_eq_iff,
  if◌then◌else◌, lookup, insert, lookup-insert, arith, Option-cases, inl, inr,
}
use dbx_build_tools.Base.Result.{Result, ok}
use dbx_build_tools.Junit.{JunitTestCase, empty_case}
use dbx_build_tools.Junit.Events.{
  Event, ParsedEvents, NoError, end_test, write_output, actual_output,
}
use dbx_build_tools.Junit.Events.Kinds.{ran}

inserted : {V : Type 0} (k : Str) (v : V) (m : List (Str × V)) → lookup k (insert k v m) ≡ some v
inserted k v m = ground (arith, lookup-insert k k v m, str_eq_iff k k)

spared :
    {V : Type 0} (k j : Str) (v : V) (m : List (Str × V))
    → str_eq k j ≡ false
    → lookup k (insert j v m) ≡ lookup k m
spared k j v m apart = ground (arith, lookup-insert j k v m, apart)

module _ {F : Type 0} where
  -- The events of one test.
  abbrev pub only : Str → List (Event F) → List (Event F)
  only k [] = []
  only k (event ∷ events) =
      let rest = only k events in if str_eq k event.test then event ∷ rest else rest

  -- Two states say the same of a test.
  pub record Agree (k : Str) (p q : ParsedEvents F) : Type 0 where
    pub cases : lookup k p.test_cases ≡ lookup k q.test_cases
    pub buffers : lookup k p.output_buffers ≡ lookup k q.output_buffers

module _ {F : Type 0} where
  -- What an event of the test does in one state, it does in a state that says the same of the test.
  abbrev pub Follows : Str → (ParsedEvents F → Result NoError (ParsedEvents F)) → Type 0
  Follows k does =
      (p q p' : ParsedEvents F)
      → Agree k p q
      → does p ≡ ok p'
      → (q' : ParsedEvents F) × (does q ≡ ok q') × Agree k p' q'

  -- What an event of another test does leaves the test alone.
  abbrev pub Spares : Str → (ParsedEvents F → Result NoError (ParsedEvents F)) → Type 0
  Spares k does = (p p' : ParsedEvents F) → does p ≡ ok p' → Agree k p' p

  pub write_output-Follows : (event : Event F) → Follows event.test (write_output event)
  unfolding write_output
  write_output-Follows event p q p' agree h =
      elim (Option-cases (lookup event.test p.output_buffers)) [
        | inl e ↦ absurd (ground (arith, h, e))
        | inr (buffer, e) ↦
            let text : Str = buffer ++ actual_output event.output in
            let same : lookup event.test q.output_buffers ≡ some buffer = sym agree.buffers ∙ e in
            let end : record p { output_buffers = insert event.test text p.output_buffers } ≡ p' =
              ground (arith, h, e) in
            let q' : ParsedEvents F = record q {
              output_buffers = insert event.test text q.output_buffers;
            } in
            (
              q',
              ground (arith, same),
              subst (λ r. Agree event.test r q') end
                  (record {
                    cases = agree.cases;
                    buffers = ground (
                      arith,
                      lookup-insert event.test event.test text p.output_buffers,
                      lookup-insert event.test event.test text q.output_buffers,
                      str_eq_iff event.test event.test,
                    );
                  }),
            )
      ]

  pub write_output-Spares :
      (k : Str) (event : Event F) → str_eq k event.test ≡ false → Spares k (write_output event)
  unfolding write_output
  write_output-Spares k event apart p p' h =
      elim (Option-cases (lookup event.test p.output_buffers)) [
        | inl e ↦ absurd (ground (arith, h, e))
        | inr (buffer, e) ↦
            let text : Str = buffer ++ actual_output event.output in
            let end : record p { output_buffers = insert event.test text p.output_buffers } ≡ p' =
              ground (arith, h, e) in
            subst (λ r. Agree k r p) end
              (record {
                cases = refl;
                buffers = ground (arith, lookup-insert event.test k text p.output_buffers, apart);
              })
      ]

  pub ran-Follows :
      (add : F → F → F) (show_seconds : F → Str) (prefix : Str) (event : Event F)
      → Follows event.test (λ p. ok (ran add show_seconds prefix event p))
  ran-Follows add show_seconds prefix event p q p' agree h =
      let tc : JunitTestCase = record empty_case { name = prefix ++ event.test } in
      let q' : ParsedEvents F = ran add show_seconds prefix event q in
      let end : ran add show_seconds prefix event p ≡ p' = ground (arith, h) in
      (
        q',
        refl,
        subst (λ r. Agree event.test r q') end
            (record {
              cases =
                  inserted event.test tc p.test_cases ∙ sym (inserted event.test tc q.test_cases);
              buffers =
                  inserted event.test [] p.output_buffers
                  ∙ sym (inserted event.test [] q.output_buffers);
            }),
      )

  pub ran-Spares :
      (add : F → F → F) (show_seconds : F → Str) (prefix : Str) (k : Str) (event : Event F)
      → str_eq k event.test ≡ false
      → Spares k (λ p. ok (ran add show_seconds prefix event p))
  ran-Spares add show_seconds prefix k event apart p p' h =
      let tc : JunitTestCase = record empty_case { name = prefix ++ event.test } in
      let end : ran add show_seconds prefix event p ≡ p' = ground (arith, h) in
      subst (λ r. Agree k r p) end
        (record {
          cases = spared k event.test tc p.test_cases apart;
          buffers = spared k event.test [] p.output_buffers apart;
        })

  module _ (add : F → F → F) (show_seconds : F → Str) (change : JunitTestCase → JunitTestCase) where
    abbrev ended_state : ParsedEvents F → Event F → F → JunitTestCase → ParsedEvents F
    ended_state p event elapsed tc = record p {
      test_cases = insert event.test tc p.test_cases;
      elapsed_time = add p.elapsed_time elapsed;
    }

    pub end_test-Follows :
        (event : Event F) → Follows event.test (end_test add show_seconds event change)
    unfolding end_test
    end_test-Follows event p q p' agree h = elim (Option-cases event.elapsed) [
      | inl d ↦ absurd (ground (arith, h, d))
      | inr (elapsed, d) ↦ elim (Option-cases (lookup event.test p.test_cases)) [
        | inl e ↦ absurd (ground (arith, h, d, e))
        | inr (tc, e) ↦
            let tc' : JunitTestCase = change (record tc { time = show_seconds elapsed }) in
            let same : lookup event.test q.test_cases ≡ some tc = sym agree.cases ∙ e in
            let end : ended_state p event elapsed tc' ≡ p' = ground (arith, h, d, e) in
            let q' : ParsedEvents F = ended_state q event elapsed tc' in
            (
              q',
              ground (arith, same, d),
              subst (λ r. Agree event.test r q') end
                  (record {
                    cases =
                        inserted event.test tc' p.test_cases
                        ∙ sym (inserted event.test tc' q.test_cases);
                    buffers = agree.buffers;
                  }),
            )
      ]
    ]

    pub end_test-Spares :
        (k : Str) (event : Event F)
        → str_eq k event.test ≡ false
        → Spares k (end_test add show_seconds event change)
    unfolding end_test
    end_test-Spares k event apart p p' h = elim (Option-cases event.elapsed) [
      | inl d ↦ absurd (ground (arith, h, d))
      | inr (elapsed, d) ↦ elim (Option-cases (lookup event.test p.test_cases)) [
        | inl e ↦ absurd (ground (arith, h, d, e))
        | inr (tc, e) ↦
            let tc' : JunitTestCase = change (record tc { time = show_seconds elapsed }) in
            let end : ended_state p event elapsed tc' ≡ p' = ground (arith, h, d, e) in
            subst (λ r. Agree k r p) end
              (record { cases = spared k event.test tc' p.test_cases apart; buffers = refl })
      ]
    ]
