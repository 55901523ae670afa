-- ===== src/Svcctl/Machine/Waits.antt =====
-- No call of `WaitTillNotState` in
-- go/src/dropbox/build_tools/svcctl/state_machine/state_machine.go sleeps through a change.
use dbx_build_tools.Base.{
  ℕ, zero, suc, ◌≡◌, subst, refl, sym, ◌⊎◌, inl, inr, Bool, true, false, some, List, [], ◌∷◌,
  get_elem?, set, Bool-cases, arith, get_elem?-snoc_cases, get_elem?-set, ◌==◌,
}
use dbx_build_tools.Svcctl.Machine.{
  Waiter, testing, sleeping, returned, Machine, rouse, rouse_all, new_machine, set_state, call_wait,
  test_loop, MachineStep, MachineRuns, sets, calls, tests, here, next,
}

module _ {S : Type 0} (same : S → S → Bool) where
  -- A call sleeps only in the state that it waits to be left, and has returned only another one.
  abbrev pub IsRight : S → Waiter S → Type 0
  IsRight state (testing n) = Unit
  IsRight state (sleeping n) = same state n ≡ true
  IsRight state (returned n s) = same s n ≡ false

  abbrev pub AreRight : Machine S → Type 0
  AreRight m = (i : ℕ) (w : Waiter S) → get_elem? m.waiters i ≡ some w → IsRight m.state w

  rouse-IsRight : (old new : S) (w : Waiter S) → IsRight old w → IsRight new (rouse w)
  unfolding rouse
  rouse-IsRight old new (testing n) h = h
  rouse-IsRight old new (sleeping n) h = tt
  rouse-IsRight old new (returned n s) h = h

  rouse_all-IsRight :
      (old new : S) (ws : List (Waiter S))
      → ((i : ℕ) (w : Waiter S) → get_elem? ws i ≡ some w → IsRight old w)
      → (i : ℕ) (w : Waiter S) → get_elem? (rouse_all ws) i ≡ some w
      → IsRight new w
  unfolding rouse_all
  rouse_all-IsRight old new [] right i w h = absurd (cc (h))
  rouse_all-IsRight old new (x ∷ ws) right zero w h =
      subst (IsRight new) (ground (arith, h)) (rouse-IsRight old new x (right zero x refl))
  rouse_all-IsRight old new (x ∷ ws) right (suc i) w h =
      rouse_all-IsRight old new ws (λ j. right (suc j)) i w h

  test_loop-IsRight : (state n : S) → IsRight state (test_loop same state n)
  unfolding test_loop
  test_loop-IsRight state n = elim (Bool-cases (same state n)) [ inl e ↦ rw e e | inr e ↦ rw e e ]

  MachineStep-AreRight : (m n : Machine S) → MachineStep same m n → AreRight m → AreRight n
  unfolding set_state call_wait
  MachineStep-AreRight m n (sets new) right = rouse_all-IsRight m.state new m.waiters right
  MachineStep-AreRight m n (calls not_state) right = λ i w h.
      elim (get_elem?-snoc_cases m.waiters (testing not_state) i h) [
        | inl old ↦ right i w old
        | inr (e, f) ↦ subst (IsRight m.state) (sym f) tt
      ]
  MachineStep-AreRight m n (tests i not_state e) right = λ j w h. elim (Bool-cases (i == j)) [
    | inl same_index ↦
        let end : test_loop same m.state not_state ≡ w = ground (
          arith,
          h,
          get_elem?-set m.waiters i j (test_loop same m.state not_state) e,
          same_index,
        ) in
        subst (IsRight m.state) end (test_loop-IsRight m.state not_state)
    | inr other_index ↦ right j w (
        ground
          (arith, h, get_elem?-set m.waiters i j (test_loop same m.state not_state) e, other_index))
  ]

  MachineRuns-AreRight :
      (initial : S) (m : Machine S) → MachineRuns same (new_machine initial) m → AreRight m
  unfolding new_machine
  MachineRuns-AreRight initial m here = λ i w h. absurd (cc (h))
  MachineRuns-AreRight initial m (next {n = n} runs step) =
      MachineStep-AreRight n m step (MachineRuns-AreRight initial n runs)

  -- Whatever callers do, and in whatever order: a call of `WaitTillNotState` sleeps only in the state
  -- that it waits to be left, it returns only another state, and while the state is another one, the
  -- next step of a call that has not returned is to return that state.
  pub MachineRuns-Awake :
      (initial : S) (m : Machine S)
      → MachineRuns same (new_machine initial) m
      → AreRight m
        × ((i : ℕ) (n : S)
            → (get_elem? m.waiters i ≡ some (testing n))
              ⊎ (get_elem? m.waiters i ≡ some (sleeping n))
            → same m.state n ≡ false
            → MachineStep same m (record m { waiters = set m.waiters i (returned n m.state) }))
  unfolding test_loop
  MachineRuns-Awake initial m runs =
      let right = MachineRuns-AreRight initial m runs in
      (
        right,
        λ i n h left. elim h [
          | inl ready ↦
              let ends : test_loop same m.state n ≡ returned n m.state = rw (left) refl in
              subst (λ w. MachineStep same m (record m { waiters = set m.waiters i w })) ends
                (tests i n ready)
          | inr asleep ↦
              let stuck : same m.state n ≡ true = right i (sleeping n) asleep in
              absurd (cc (left, stuck))
        ],
      )
