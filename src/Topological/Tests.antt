-- ===== src/Topological/Tests.antt =====
-- The runner of go/src/dropbox/build_tools/svcctl/topological/runner.go on four tasks: 3
-- depends on 1 and 2, and these on 0.
use mathlib.Core.List.{filter_map}
use dbx_build_tools.Base.{
  ℕ, zero, suc, ◌≤◌, ◌<◌, ◌≡◌, refl, sym, subst, ◌∙◌, ◌↔◌, ◌⊎◌, true, none, some, List, [], ◌∷◌,
  map, Memᴰ, Str, has, occ, str_eq, str_eq_iff, Distinct, All, All-mem, arith, lookup, insert,
}
use dbx_build_tools.Topological.Task.{TaskOps, visit, unique_loop, unique_deps}
use dbx_build_tools.Topological.Unique.{IsUniqueDeps, IsClosed, unfollowed, unique_deps_correct}
use dbx_build_tools.Topological.Runner.{
  Pool, new_pool, Step, enters, passes, Runs, here, next, enter_at, pass_at, take_ready, ready,
}
use dbx_build_tools.Topological.Runner.Account.{Account, Runs-Account}
use dbx_build_tools.Topological.Runner.Order.{Ordered, Runs-Ordered}
use dbx_build_tools.Topological.Runner.Plan.{Plans, plan_of, Runs-Plans}
use dbx_build_tools.Topological.Runner.Finish.{IsAcyclic, Returned, run_progress}
use dbx_build_tools.Topological.Runner.Outcome.{run_outcome}
use dbx_build_tools.Topological.Runner.Ends.{steps, run_bounded}
use dbx_build_tools.Topological.Reversed.{
  Turned, turn_all, turned_ops, turned_slots, by_key, turn, turn_loop, slice_at, add_edges,
}
use dbx_build_tools.Topological.Reversed.Edges.{IsTurned, turn_all_correct}
use dbx_build_tools.Topological.Reversed.Order.{reversed_order}

abbrev needs : ℕ → List ℕ
needs zero = []
needs (suc zero) = 0 ∷ []
needs (suc (suc zero)) = 0 ∷ []
needs (suc (suc (suc n))) = 1 ∷ 2 ∷ []

abbrev diamond : TaskOps ℕ
diamond = record { key = λ n. n ∷ []; dependents = needs }

abbrev four : List ℕ
four = 3 ∷ 1 ∷ 2 ∷ 0 ∷ []

four-IsClosed : IsClosed diamond four
four-IsClosed t d m n =
    All-mem (λ x. Memᴰ x four) (needs t)
      (All-mem (λ y. All (λ x. Memᴰ x four) (needs y)) four
        ((in1, (in2, tt)), ((in0, tt), ((in0, tt), (tt, tt)))) t m)
      d n
  where
    in0 : Memᴰ 0 four
    in0 = Memᴰ.tail (Memᴰ.tail (Memᴰ.tail (Memᴰ.head refl)))

    in1 : Memᴰ 1 four
    in1 = Memᴰ.tail (Memᴰ.head refl)

    in2 : Memᴰ 2 four
    in2 = Memᴰ.tail (Memᴰ.tail (Memᴰ.head refl))

only_three : (t : ℕ) → Memᴰ t (3 ∷ []) → Memᴰ t four
only_three t m = All-mem (λ x. Memᴰ x four) (3 ∷ []) (Memᴰ.head refl, tt) t m

unique_deps_runs : unique_deps diamond 9 (3 ∷ []) ≡ some four
unfolding unique_deps unique_loop visit has str_eq
unique_deps_runs = refl

unique_deps_correct_example :
    (deps : List ℕ) × (unique_deps diamond 9 (3 ∷ []) ≡ some deps)
    × IsUniqueDeps diamond (3 ∷ []) deps
unfolding unfollowed has
unique_deps_correct_example =
    unique_deps_correct diamond four four-IsClosed 9 (3 ∷ []) only_three (omega arith)

turn_all_correct_example :
    (r : Turned ℕ) × (turn_all diamond 9 (3 ∷ []) ≡ some r) × IsTurned diamond (3 ∷ []) r
unfolding unfollowed has
turn_all_correct_example =
    turn_all_correct diamond four four-IsClosed 9 (3 ∷ []) only_three (omega arith)

four-distinct : Distinct (map diamond.key four)
unfolding occ
four-distinct k = ground (
  arith,
  str_eq_iff k (3 ∷ []),
  str_eq_iff k (1 ∷ []),
  str_eq_iff k (2 ∷ []),
  str_eq_iff k (0 ∷ []),
)

abbrev rank : Str → ℕ
rank [] = 0
rank (x ∷ s) = x

four-IsAcyclic : IsAcyclic diamond four rank
unfolding has str_eq
four-IsAcyclic = record {
  closed = λ t d m n. (both t d m n).0;
  falls = λ t d m n. (both t d m n).1;
}
  where
    Both : ℕ → ℕ → Type 0
    Both t d = (has (d ∷ []) (map diamond.key four) ≡ true) × (d < t)

    both : (t d : ℕ) → Memᴰ t four → Memᴰ d (needs t) → Both t d
    both t d m n =
        All-mem (Both t) (needs t)
          (All-mem (λ y. All (Both y) (needs y)) four
            (
              ((refl, omega arith), ((refl, omega arith), tt)),
              (((refl, omega arith), tt), (((refl, omega arith), tt), (tt, tt))),
            )
            t m)
          d n

-- A pool of three workers, in which worker 0 runs the task 0 and worker 1 waits.
abbrev early : Pool ℕ ℕ
early = enter_at diamond 1 (enter_at diamond 0 (new_pool 1 four))

early_run : Runs diamond (new_pool 1 four) early
unfolding enter_at new_pool take_ready ready has
early_run = next (next here (enters 0 refl)) (enters 1 refl)

Runs-Account_example : Account diamond four early
Runs-Account_example = Runs-Account diamond four four-distinct 1 early_run

Runs-Ordered_example : Ordered diamond four early
Runs-Ordered_example = Runs-Ordered diamond four four-distinct 1 early_run

run_progress_example :
    ((q : Pool ℕ ℕ) × Step diamond early q) ⊎ Returned diamond four four-distinct early
run_progress_example = run_progress diamond four four-distinct rank four-IsAcyclic 1 early_run

-- One worker runs all tasks, in the order 0, 1, 2, 3.
abbrev done : ℕ → Pool ℕ ℕ → Pool ℕ ℕ
done t p = enter_at diamond 0 (pass_at diamond 0 t p)

abbrev last : Pool ℕ ℕ
last = done 3 (done 2 (done 1 (done 0 (enter_at diamond 0 (new_pool 0 four)))))

last_run : Runs diamond (new_pool 0 four) last
unfolding enter_at pass_at new_pool take_ready ready has str_eq
last_run =
    next
      (next (next (next (next here (enters 0 refl)) (passes 0 0 refl)) (passes 0 1 refl))
        (passes 0 2 refl))
      (passes 0 3 refl)

last-Returned : Returned diamond four four-distinct last
unfolding enter_at pass_at new_pool take_ready ready has str_eq
last-Returned zero w g = ground arith
last-Returned (suc i) w g = absurd (cc)

run_outcome_example :
    (last.runner.err ≡ none) ↔ ((t : ℕ) → Memᴰ t four → has (t ∷ []) last.runner.completed ≡ true)
run_outcome_example = run_outcome diamond four four-distinct 0 last_run last-Returned

run_bounded_example : steps diamond last_run ≤ 17
run_bounded_example = run_bounded diamond 0 four last_run

abbrev turned_four : Turned ℕ
turned_four = record {
  all_tasks = four;
  reversed_deps = (1 ∷ [], 3 ∷ []) ∷ (2 ∷ [], 3 ∷ []) ∷ (0 ∷ [], 1 ∷ 2 ∷ []) ∷ [];
}

turn_all_runs : turn_all diamond 9 (3 ∷ []) ≡ some turned_four
unfolding turn_all turn_loop turn add_edges insert lookup has str_eq
turn_all_runs = refl

turned_four-IsTurned : IsTurned diamond (3 ∷ []) turned_four
unfolding unfollowed has
turned_four-IsTurned =
    let (r, e, t) =
      turn_all_correct diamond four four-IsClosed 9 (3 ∷ []) only_three (omega arith) in
    subst (IsTurned diamond (3 ∷ [])) (cc (sym e ∙ turn_all_runs)) t

-- The first worker of the reversed pool has stopped the task 3 and now stops the task 1.
abbrev stopping : Pool ℕ ℕ
stopping =
    let ops = turned_ops diamond turned_four in
    enter_at ops 0 (pass_at ops 0 3 (enter_at ops 0 (new_pool 0 four)))

stopping_run : Runs (turned_ops diamond turned_four) (new_pool 0 four) stopping
unfolding turned_ops turned_slots by_key slice_at lookup filter_map enter_at pass_at new_pool
    take_ready ready has str_eq
stopping_run = next (next here (enters 0 refl)) (passes 0 3 refl)

reversed_order_example : has (3 ∷ []) stopping.runner.completed ≡ true
unfolding turned_ops turned_slots by_key slice_at lookup filter_map enter_at pass_at new_pool
    take_ready ready has str_eq
reversed_order_example =
    reversed_order diamond (3 ∷ []) turned_four turned_four-IsTurned four four-distinct 0
      stopping_run 0 1 3 refl (Memᴰ.head refl) refl

-- The same pool before any step.
abbrev idle : Pool ℕ ℕ
idle = new_pool 1 four

Runs-Plans_example : Plans diamond (plan_of diamond idle) (plan_of diamond early)
Runs-Plans_example = Runs-Plans diamond early_run
