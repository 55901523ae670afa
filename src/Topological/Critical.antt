-- ===== src/Topological/Critical.antt =====
-- The slowest chain of tasks: `highestCost`, `taskCost` and `CriticalPath` of
-- go/src/dropbox/build_tools/svcctl/topological/runner.go. A `time.Duration` is its 64 bits.
pub mod Best
pub mod Slowest
mod Tests
use dbx_build_tools.Base.{
  ℕ, zero, suc, ◌+◌, ◌*◌, ◌%◌, ◌<◌, ◌≤◌, ◌≡◌, ltb, Bool, true, false, Option, none, some, List, [],
  ◌∷◌, Memᴰ, Str, lookup, insert, if◌then◌else◌,
}
use dbx_build_tools.Topological.Task.{TaskOps}

abbrev pub two_63 : ℕ
two_63 = 9223372036854775808

-- The sum of two `int64`.
abbrev pub add_64 : ℕ → ℕ → ℕ
add_64 a b = (a + b) % (two_63 * 2)

-- `<` on `int64`
abbrev pub less_64 : ℕ → ℕ → Bool
less_64 a b = ltb ((a + two_63) % (two_63 * 2)) ((b + two_63) % (two_63 * 2))

-- `Duration`, and whether `StartTime` is before the start of the runner.
pub record Timing (T : Type 0) : Type 0 where
  pub duration : T → ℕ
  pub early : T → Bool

abbrev pub Costs : Type 0
Costs = List (Str × ℕ)

module _ {T : Type 0} (ops : TaskOps T) (timing : Timing T) where
  open ops use {key, dependents}
  open timing use {duration, early}

  -- The loop of `highestCost`, where the first argument is `taskCost`.
  unfoldable pub highest_loop :
      (T → Costs → Option (ℕ × Costs)) → List T → ℕ → Option T → Costs → Option (Option T × Costs)
  highest_loop cost_of [] cost highest costs = some (highest, costs)
  highest_loop cost_of (task ∷ tasks) cost highest costs =
      let skipped = highest_loop cost_of tasks cost highest costs in
      if early task then skipped else elim (cost_of task costs) [
        | none ↦ none
        | some (c, costs') ↦
            let higher = less_64 cost c in
            highest_loop cost_of tasks (if higher then c else cost)
              (if higher then some task else highest) costs'
      ]

  -- `taskCost`; `none` means that the fuel ran out.
  unfoldable pub task_cost : ℕ → T → Costs → Option (ℕ × Costs)
  unfolding highest_loop
  task_cost zero task costs = none
  task_cost (suc fuel) task costs = elim (lookup (key task) costs) [
    | some c ↦ some (c, costs)
    | none ↦ elim (highest_loop (task_cost fuel) (dependents task) 0 none costs) [
      | none ↦ none
      | some (none, costs') ↦
          let c = add_64 (duration task) 0 in some (c, insert (key task) c costs')
      | some (some next, costs') ↦ elim (task_cost fuel next costs') [
        | none ↦ none
        | some (d, costs'') ↦
            let c = add_64 (duration task) d in some (c, insert (key task) c costs'')
      ]
    ]
  ]

  abbrev pub highest_cost : ℕ → List T → Costs → Option (Option T × Costs)
  highest_cost fuel tasks costs = highest_loop (task_cost fuel) tasks 0 none costs

  -- `for task != nil`
  unfoldable pub path_loop : ℕ → Option T → Costs → Option (List T × Costs)
  unfolding highest_loop task_cost
  path_loop fuel none costs = some ([], costs)
  path_loop zero (some task) costs = none
  path_loop (suc fuel) (some task) costs = elim (highest_cost fuel (dependents task) costs) [
    | none ↦ none
    | some (next, costs') ↦ elim (path_loop fuel next costs') [
      | none ↦ none
      | some (path, costs'') ↦ some (task ∷ path, costs'')
    ]
  ]

  -- `allTasks`, with the keys of `completed` in the order in which Go walks the map. A key without a
  -- task gives a nil task, which panics later: `none`.
  unfoldable pub all_tasks : List (Str × T) → List Str → Option (List T)
  all_tasks tasks_by_key [] = some []
  all_tasks tasks_by_key (k ∷ keys) = elim (lookup k tasks_by_key) [
    | none ↦ none
    | some t ↦ elim (all_tasks tasks_by_key keys) [ none ↦ none | some ts ↦ some (t ∷ ts) ]
  ]

  unfoldable pub critical_path : ℕ → List (Str × T) → List Str → Costs → Option (List T × Costs)
  unfolding all_tasks path_loop
  critical_path fuel tasks_by_key completed costs = elim (all_tasks tasks_by_key completed) [
    | none ↦ none
    | some tasks ↦ elim (highest_cost fuel tasks costs) [
      | none ↦ none
      | some (highest, costs') ↦ path_loop fuel highest costs'
    ]
  ]
