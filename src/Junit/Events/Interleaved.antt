-- ===== src/Junit/Events/Interleaved.antt =====
-- Tests that run at the same time, in go/src/dropbox/build_tools/gojunit/gojunit.go.
use dbx_build_tools.Base.{
  arith, ◌≡◌, refl, sym, ◌∙◌, subst, false, List, [], ◌∷◌, Str, str_eq, str_eq_iff, Bool-cases, inl,
  inr,
}
use dbx_build_tools.Base.Result.{Result, ok, >>=-ok_inv}
use dbx_build_tools.Junit.Events.{Event, ParsedEvents, NoError, handle, handle_all}
use dbx_build_tools.Junit.Events.Kinds.{Does, handle-cases}
use dbx_build_tools.Junit.Events.Alone.{
  only, Agree, Follows, Spares, write_output-Follows, write_output-Spares, ran-Follows, ran-Spares,
  end_test-Follows, end_test-Spares,
}

module _ {F : Type 0} (add : F → F → F) (show_seconds : F → Str) (prefix : Str) where
  Does-Follows :
      (event : Event F) (does : ParsedEvents F → Result NoError (ParsedEvents F))
      → Does add show_seconds prefix event does
      → Follows event.test does
      → Follows event.test (handle add show_seconds prefix event)
  Does-Follows event does same follows p q p' agree h =
      let (q', run, after) = follows p q p' agree (sym (same p) ∙ h) in (q', same q ∙ run, after)

  Does-Spares :
      (k : Str) (event : Event F) (does : ParsedEvents F → Result NoError (ParsedEvents F))
      → Does add show_seconds prefix event does
      → Spares k does
      → Spares k (handle add show_seconds prefix event)
  Does-Spares k event does same spares p p' h = spares p p' (sym (same p) ∙ h)

  same_state : (k : Str) → Follows {F = F} k (λ p. ok p)
  same_state k p q p' agree h =
      let end : p ≡ p' = ground (arith, h) in (q, refl, subst (λ r. Agree k r q) end agree)

  handle-Follows : (event : Event F) → Follows event.test (handle add show_seconds prefix event)
  handle-Follows event = elim (handle-cases add show_seconds prefix event) [
    | inl d ↦ Does-Follows event _ d (ran-Follows add show_seconds prefix event)
    | inr (inl d) ↦ Does-Follows event _ d (same_state event.test)
    | inr (inr (inl d)) ↦ Does-Follows event _ d (write_output-Follows event)
    | inr (inr (inr (change, d))) ↦
        Does-Follows event _ d (end_test-Follows add show_seconds change event)
  ]

  handle-Spares :
      (k : Str) (event : Event F)
      → str_eq k event.test ≡ false
      → Spares k (handle add show_seconds prefix event)
  handle-Spares k event apart = elim (handle-cases add show_seconds prefix event) [
    | inl d ↦ Does-Spares k event _ d (ran-Spares add show_seconds prefix k event apart)
    | inr (inl d) ↦ Does-Spares k event _ d (λ p p' h.
        let end : p ≡ p' = ground (arith, h) in
        subst (λ r. Agree k r p) end (record { cases = refl; buffers = refl }))
    | inr (inr (inl d)) ↦ Does-Spares k event _ d (write_output-Spares k event apart)
    | inr (inr (inr (change, d))) ↦
        Does-Spares k event _ d (end_test-Spares add show_seconds change k event apart)
  ]

  -- When the events of several tests are handled without a panic, the events of one test are so
  -- alone, from a state that says the same of the test, and in the end they have given it the same
  -- test case and the same output.
  pub handle_all-Agree :
      (k : Str) (events : List (Event F)) (p q p' : ParsedEvents F)
      → Agree k p q
      → handle_all add show_seconds prefix events p ≡ ok p'
      → (q' : ParsedEvents F) × (handle_all add show_seconds prefix (only k events) q ≡ ok q')
        × Agree k p' q'
  unfolding handle_all
  handle_all-Agree k [] p q p' agree h = same_state k p q p' agree h
  handle_all-Agree k (event ∷ events) p q p' agree h =
      let (p1, first, rest) = >>=-ok_inv (handle add show_seconds prefix event p) _ h in
      elim (Bool-cases (str_eq k event.test)) [
        | inl e ↦
            let same : k ≡ event.test = (str_eq_iff k event.test).0 e in
            let (q1, run, agree1) =
              subst (λ j. Follows j (handle add show_seconds prefix event)) (sym same)
                (handle-Follows event) p q p1 agree first in
            let (q', all, agree') = handle_all-Agree k events p1 q1 p' agree1 rest in
            (q', rw (e, run) all, agree')
        | inr e ↦
            let spare = handle-Spares k event e p p1 first in
            let agree1 : Agree k p1 q = record {
              cases = spare.cases ∙ agree.cases;
              buffers = spare.buffers ∙ agree.buffers;
            } in
            let (q', all, agree') = handle_all-Agree k events p1 q p' agree1 rest in
            (q', rw (e) all, agree')
      ]
