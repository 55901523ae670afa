-- ===== src/Topological/Critical/Slowest.antt =====
-- `taskCost` finds the greatest weight, and `CriticalPath` a slowest chain, of
-- go/src/dropbox/build_tools/svcctl/topological/runner.go.

use dbx_build_tools.Base.{
  ℕ, zero, suc, ◌+◌, ◌<◌, ◌≤◌, ◌≡◌, refl, sym, ap, subst, false, Option, none, some, List, [], ◌∷◌,
  ◌∙◌, Memᴰ, Str, lookup, insert, lookup-insert, ◌⊎◌, inl, inr, arith, Bool-cases, Option-cases,
  str_eq, str_eq_iff,
}
use dbx_build_tools.Topological.Task.{TaskOps}
use dbx_build_tools.Topological.Critical.{
  Timing, Costs, add_64, task_cost, path_loop, all_tasks, critical_path,
}
use dbx_build_tools.Topological.Critical.Best.{
  IsChain, single, link, weight, IsTimed, IsBest, IsBest-unique, Found, AreBest, Finds,
  IsBest-small, add_64_small, highest_loop-Found,
}

module _ {T : Type 0} (ops : TaskOps T) (timing : Timing T) where
  open ops use {key, dependents}
  open timing use {duration, early}

  chain_bound :
      (t : T) (c : ℕ)
      → ((d : T) (k : List T)
          → Memᴰ d (dependents t)
          → early d ≡ false
          → IsChain ops timing (d ∷ k)
          → weight ops timing (d ∷ k) ≤ c)
      → (l : List T) → IsChain ops timing (t ∷ l)
      → weight ops timing (t ∷ l) ≤ duration t + c
  chain_bound t c bound [] single = omega arith
  chain_bound t c bound (d ∷ l) (link m e k) = let h = bound d l m e k in omega (arith, h)

  -- A best dependency makes a best chain.
  IsBest-of :
      (t : T) (h : Option T) (c : ℕ)
      → Found ops timing (dependents t) 0 none h c
      → IsBest ops timing t (duration t + c)
  IsBest-of t h c found = elim found.which [
    | inl (_, eq) ↦ record {
      rest = [];
      chain = single;
      reached = ap (λ n. duration t + n) (sym eq);
      above = chain_bound t c found.bound;
    }
    | inr (d, _, m, e, b) ↦ record {
      rest = d ∷ b.rest;
      chain = link m e b.chain;
      reached = ap (λ n. duration t + n) b.reached;
      above = chain_bound t c found.bound;
    }
  ]

  -- The path is a chain that starts at one of the tasks, or empty, and no chain that starts at one
  -- of them lasts longer.
  pub record IsCritical (tasks path : List T) : Type 0 where
    pub starts :
        (path ≡ [])
        ⊎ ((t : T) × (l : List T) × (path ≡ t ∷ l)
            × Memᴰ t tasks
            × (early t ≡ false)
            × IsChain ops timing (t ∷ l))
    pub slowest :
        (t : T) (l : List T)
        → Memᴰ t tasks
        → early t ≡ false
        → IsChain ops timing (t ∷ l)
        → weight ops timing (t ∷ l) ≤ weight ops timing path

  module _ (rank limit : T → ℕ) (timed : IsTimed ops timing rank limit) where
    insert-AreBest :
        (t : T) (c : ℕ) (costs : Costs)
        → IsBest ops timing t c
        → AreBest ops timing costs
        → AreBest ops timing (insert (key t) c costs)
    insert-AreBest t c costs b best u k h =
        let g = rw (lookup-insert (key t) (key u) c costs) at h in
        elim (Bool-cases (str_eq (key u) (key t))) [
          | inl e ↦
              let same : t ≡ u = sym (timed.injective u t ((str_eq_iff (key u) (key t)).0 e)) in
              let eq : c ≡ k = ground (arith, g, e) in
              subst (λ z. IsBest ops timing z k) same (subst (IsBest ops timing t) eq b)
          | inr e ↦ best u k (rw e at g)
        ]

    add_64_best :
        (t : T) (c : ℕ)
        → IsBest ops timing t (duration t + c)
        → add_64 (duration t) c ≡ duration t + c
    add_64_best t c b =
        add_64_small (duration t) c (IsBest-small ops timing rank limit timed t (duration t + c) b)

    task_cost-Finds :
        (fuel : ℕ) (t : T) → rank t < fuel → Finds ops timing (task_cost ops timing fuel) t
    unfolding task_cost
    task_cost-Finds zero t more costs best = absurd (omega (arith, more))
    task_cost-Finds (suc fuel) t more costs best = elim (Option-cases (lookup (key t) costs)) [
      | inr (c, e) ↦ (c, costs, rw (task_cost, e) refl, best t c e, best)
      | inl e ↦
          let finds = λ (d : T) (m : Memᴰ d (dependents t)) (_ : early d ≡ false).
            task_cost-Finds fuel d (let less = timed.falls t d m in omega (arith, less, more)) in
          let (h, costs1, c, eq, found, ok) =
            highest_loop-Found ops timing rank limit timed (task_cost ops timing fuel)
              (dependents t) 0 none costs finds (omega arith) best in
          let b = IsBest-of t h c found in
          let sum = add_64_best t c b in
          elim found.which [
            | inl (none_found, zero_cost) ↦
                let sum_zero : add_64 (duration t) 0 ≡ duration t + c =
                  ap (add_64 (duration t)) (sym zero_cost) ∙ sum in
                (
                  duration t + c,
                  insert (key t) (duration t + c) costs1,
                  rw (task_cost, e, eq, none_found, sum_zero) refl,
                  b,
                  insert-AreBest t (duration t + c) costs1 b ok,
                )
            | inr (d, found_d, m, not_early, best_d) ↦
                let (c2, costs2, eq2, b2, ok2) = finds d m not_early costs1 ok in
                let same = IsBest-unique ops timing d c2 c b2 best_d in
                (
                  duration t + c,
                  insert (key t) (duration t + c) costs2,
                  rw (task_cost, e, eq, found_d, eq2, same, sum) refl,
                  b,
                  insert-AreBest t (duration t + c) costs2 b ok2,
                )
          ]
    ]

    Finds-deps :
        (fuel : ℕ) (t : T)
        → rank t < suc fuel
        → (d : T) → Memᴰ d (dependents t)
        → early d ≡ false
        → Finds ops timing (task_cost ops timing fuel) d
    Finds-deps fuel t more d m _ =
        let less = timed.falls t d m in task_cost-Finds fuel d (omega (arith, less, more))

    path_loop-IsChain :
        (fuel : ℕ) (t : T) (costs : Costs)
        → rank t < fuel
        → AreBest ops timing costs
        → (path : List T) × (costs' : Costs) × (path_loop ops timing fuel (some t) costs
            ≡ some (t ∷ path, costs'))
          × IsBest ops timing t (weight ops timing (t ∷ path))
          × IsChain ops timing (t ∷ path)
          × AreBest ops timing costs'
    unfolding path_loop
    path_loop-IsChain zero t costs more best = absurd (omega (arith, more))
    path_loop-IsChain (suc fuel) t costs more best =
        let (h, costs1, c, eq, found, ok) =
          highest_loop-Found ops timing rank limit timed (task_cost ops timing fuel) (dependents t)
            0 none costs (Finds-deps fuel t more) (omega arith) best in
        let b = IsBest-of t h c found in
        elim found.which [
          | inl (none_found, zero_cost) ↦ (
            [],
            costs1,
            rw (path_loop, eq, none_found) refl,
            subst (λ n. IsBest ops timing t (duration t + n)) zero_cost b,
            single,
            ok,
          )
          | inr (d, found_d, m, not_early, best_d) ↦
              let less = timed.falls t d m in
              let (path, costs2, eq2, b2, chain, ok2) =
                path_loop-IsChain fuel d costs1 (omega (arith, less, more)) ok in
              (
                d ∷ path,
                costs2,
                rw (path_loop, eq, found_d, eq2) refl,
                subst (λ n. IsBest ops timing t (duration t + n))
                    (IsBest-unique ops timing d c (weight ops timing (d ∷ path)) best_d b2) b,
                link m not_early chain,
                ok2,
              )
        ]

    -- When the dependencies have no cycle, no chain lasts 2^63 ns, a key names one task, every
    -- completed key has a task, and the costs found before are right, `CriticalPath` returns a
    -- slowest chain of the completed tasks that the runner started, with more fuel than the rank of
    -- each of them; and the costs it keeps are right again.
    pub critical_path_slowest :
        (fuel : ℕ) (tasks_by_key : List (Str × T)) (completed : List Str) (costs : Costs)
        (tasks : List T)
        → all_tasks ops timing tasks_by_key completed ≡ some tasks
        → ((t : T) → Memᴰ t tasks → rank t < fuel)
        → AreBest ops timing costs
        → (path : List T) × (costs' : Costs) × (critical_path ops timing fuel tasks_by_key completed
              costs
            ≡ some (path, costs'))
          × IsCritical tasks path
          × AreBest ops timing costs'
    unfolding critical_path path_loop
    critical_path_slowest fuel tasks_by_key completed costs tasks found_tasks more best =
        let finds =
          λ (d : T) (m : Memᴰ d tasks) (_ : early d ≡ false). task_cost-Finds fuel d (more d m) in
        let (h, costs1, c, eq, found, ok) =
          highest_loop-Found ops timing rank limit timed (task_cost ops timing fuel) tasks 0 none
            costs finds (omega arith) best in
        elim found.which [
          | inl (none_found, zero_cost) ↦ (
            [],
            costs1,
            rw (critical_path, found_tasks, eq, none_found) refl,
            record {
              starts = inl refl;
              slowest = λ t l m e k.
                  subst (λ n. weight ops timing (t ∷ l) ≤ n) zero_cost (found.bound t l m e k);
            },
            ok,
          )
          | inr (d, found_d, m, not_early, best_d) ↦
              let (path, costs2, eq2, b2, chain, ok2) =
                path_loop-IsChain fuel d costs1 (more d m) ok in
              (
                d ∷ path,
                costs2,
                rw (critical_path, found_tasks, eq, found_d, eq2) refl,
                record {
                  starts = inr (d, path, refl, m, not_early, chain);
                  slowest = λ t l n e k.
                      subst (λ w. weight ops timing (t ∷ l) ≤ w)
                        (IsBest-unique ops timing d c (weight ops timing (d ∷ path)) best_d b2)
                        (found.bound t l n e k);
                },
                ok2,
              )
        ]
