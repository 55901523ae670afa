-- ===== src/Topological/Runner/Finish.antt =====
-- The end of `Run` in go/src/dropbox/build_tools/svcctl/topological/runner.go.
use dbx_build_tools.Base.{
  ℕ, zero, suc, ◌+◌, ◌≤◌, ◌<◌, ◌≡◌, refl, sym, ap, subst, ◌∙◌, ◌⊎◌, inl, inr, Bool, true, false,
  none, some, List, [], ◌∷◌, map, Memᴰ, Memᴰ-cons, List-cases, Option-cases, Bool-cases, Str, has,
  has-occ, occ, str_eq, str_eq_iff, Distinct, get_elem?, arith,
}
use dbx_build_tools.Topological.Task.{TaskOps}
use dbx_build_tools.Topological.Runner.{
  Worker, looping, running, waiting, finished, Pool, enter_at, pass_at, new_pool, Step, enters,
  passes, Runs, ready, all_completed,
}
use dbx_build_tools.Topological.Runner.Account.{held, Account, Runs-Account}
use dbx_build_tools.Topological.Runner.Waiting.{Runs-Attentive}

module _ {T : Type 0} (ops : TaskOps T) where
  open ops use {key, dependents}

  -- A worker that can move, or none: then all of them wait or have returned.
  abbrev pub Idle : List (Worker T) → Type 0
  Idle ws = (i : ℕ) (w : Worker T) → get_elem? ws i ≡ some w → (w ≡ waiting) ⊎ (w ≡ finished)

  pub held-Idle : (k : Str) (ws : List (Worker T)) → Idle ws → held ops k ws ≡ 0
  unfolding held
  held-Idle k [] h = refl
  held-Idle k (w ∷ ws) h = ground (arith, h 0 w refl, held-Idle k ws (λ i v g. h (suc i) v g))

  -- Every dependency of a task of the list is, by its key, in the list, and comes earlier.
  pub record IsAcyclic (init : List T) (rank : Str → ℕ) : Type 0 where
    pub closed : (t d : T) → Memᴰ t init → Memᴰ d (dependents t) → has (key d) (map key init) ≡ true
    pub falls : (t d : T) → Memᴰ t init → Memᴰ d (dependents t) → rank (key d) < rank (key t)

  mem-of_occ : (ts : List T) (k : Str) → 0 < occ k (map key ts) → (t : T) × Memᴰ t ts × (key t ≡ k)
  unfolding occ
  mem-of_occ [] k h = absurd (omega arith)
  mem-of_occ (x ∷ ts) k h = elim (Bool-cases (str_eq k (key x))) [
    | inl e ↦ (x, (Memᴰ-cons x x ts).1 (inl refl), sym ((str_eq_iff k (key x)).0 e))
    | inr e ↦ let (t, m, f) = mem-of_occ ts k (ground arith) in (t, (Memᴰ-cons t x ts).1 (inr m), f)
  ]

  first_open :
      (completed : List Str) (ds : List T)
      → all_completed ops completed ds ≡ false
      → (d : T) × Memᴰ d ds × (has (key d) completed ≡ false)
  unfolding all_completed
  first_open completed [] h = cc
  first_open completed (x ∷ ds) h = elim (Bool-cases (has (key x) completed)) [
    | inl e ↦
        let (d, m, f) = first_open completed ds (ground arith) in
        (d, (Memᴰ-cons d x ds).1 (inr m), f)
    | inr e ↦ (x, (Memᴰ-cons x x ds).1 (inl refl), e)
  ]

  -- Among tasks that stand in a list or are completed, a dependency order leaves none unready.
  no_stall :
      (init tasks : List T) (completed : List Str) (rank : Str → ℕ)
      → IsAcyclic init rank
      → ((k : Str) → occ k (map key init) ≤ occ k (map key tasks) + occ k completed)
      → ((t : T) → Memᴰ t tasks → Memᴰ t init)
      → ((t : T) → Memᴰ t tasks → ready ops completed t ≡ false)
      → (bound : ℕ) (t : T) → rank (key t) < bound
      → Memᴰ t tasks
      → ⊥
  unfolding ready
  no_stall init tasks completed rank h account inside unready zero t below m = omega arith
  no_stall init tasks completed rank h account inside unready (suc bound) t below m =
      let (d, n, open_d) = first_open completed (dependents t) (unready t m) in
      let listed = (has-occ (key d) (map key init)).0 (h.closed t d (inside t m) n) in
      let (u, mu, e) =
        mem-of_occ tasks (key d)
          (ground (arith, account (key d), listed, has-occ (key d) completed, open_d)) in
      no_stall init tasks completed rank h account inside unready bound u
        (rw e (omega (arith, h.falls t d (inside t m) n))) mu

  abbrev LiveCases : List (Worker T) → Type 0
  LiveCases ws =
      ((i : ℕ) × (get_elem? ws i ≡ some looping))
      ⊎ ((i : ℕ) × (t : T) × (get_elem? ws i ≡ some (running t)))
      ⊎ Idle ws

  LiveCases-cons :
      (w : Worker T) (ws : List (Worker T))
      → (w ≡ waiting) ⊎ (w ≡ finished)
      → LiveCases ws
      → LiveCases (w ∷ ws)
  LiveCases-cons w ws quiet (inl (i, g)) = inl (suc i, g)
  LiveCases-cons w ws quiet (inr (inl (i, t, g))) = inr (inl (suc i, t, g))
  LiveCases-cons w ws quiet (inr (inr idle)) = inr (inr go)
    where
      go : (i : ℕ) (v : Worker T) → get_elem? (w ∷ ws) i ≡ some v → (v ≡ waiting) ⊎ (v ≡ finished)
      go zero v g = ground arith
      go (suc i) v g = idle i v g

  live_cases : (ws : List (Worker T)) → LiveCases ws
  live_cases [] = inr (inr (λ i w h. cc))
  live_cases (looping ∷ ws) = inl (0, refl)
  live_cases (running t ∷ ws) = inr (inl (0, t, refl))
  live_cases (waiting ∷ ws) = LiveCases-cons waiting ws (inl refl) (live_cases ws)
  live_cases (finished ∷ ws) = LiveCases-cons finished ws (inr refl) (live_cases ws)

module _ {T E : Type 0} (ops : TaskOps T) (init : List T)
    (distinct : Distinct (map ops.key init)) where
  open ops use {key, dependents}

  -- `wg.Wait()` returns: every worker has.
  abbrev pub Returned : Pool T E → Type 0
  Returned p = (i : ℕ) (w : Worker T) → get_elem? p.workers i ≡ some w → w ≡ finished

  err-none : {p : Pool T E} → Account ops init p → p.runner.die ≡ false → p.runner.err ≡ none
  err-none {p} a alive = elim (Option-cases p.runner.err) [
    | inl e ↦ e
    | inr (x, e) ↦ absurd (clash (a.die_iff.1 (λ n. cc)) alive)
  ]
    where
      clash : {b : Bool} → b ≡ true → b ≡ false → ⊥
      clash x y = cc

  module _ (rank : Str → ℕ) (acyclic : IsAcyclic ops init rank) where
    stuck :
        (cpus : ℕ) {p : Pool T E}
        → Runs ops (new_pool cpus init) p
        → Idle ops p.workers
        → (i : ℕ) → get_elem? p.workers i ≡ some waiting
        → ⊥
    stuck cpus {p} r idle i g =
        let a = Runs-Account ops init distinct cpus r in
        let s = (Runs-Attentive ops init distinct cpus r).idle i g in
        elim (List-cases p.runner.tasks) [
          | inl e ↦ s.some_left e
          | inr (t, rest, e) ↦
              no_stall ops init p.runner.tasks p.runner.completed rank acyclic
                (λ k. omega (arith, a.exact (err-none a s.alive) k, held-Idle ops k p.workers idle))
                a.listed s.none_ready (suc (rank (key t))) t (omega arith)
                (subst (Memᴰ t) (sym e) (Memᴰ.head refl))
        ]

    -- When the collected tasks have different keys and depend on one another in some order, the pool never gets stuck: in
    -- every state that it reaches some worker can make a step, or all of them have returned.
    pub run_progress :
        (cpus : ℕ) {p : Pool T E}
        → Runs ops (new_pool cpus init) p
        → ((q : Pool T E) × Step ops p q) ⊎ Returned p
    run_progress cpus {p} r = elim (live_cases ops p.workers) [
      | inl (i, g) ↦ inl (enter_at ops i p, enters i g)
      | inr (inl (i, t, g)) ↦ inl (enter_at ops i (pass_at ops i t p), passes i t g)
      | inr (inr idle) ↦ inr (λ i w g. elim (idle i w g) [
        | inl e ↦ absurd (stuck cpus r idle i (g ∙ ap some e))
        | inr e ↦ e
      ])
    ]
