-- ===== src/Topological/Reversed.antt =====
-- `NewReversedRunner` of go/src/dropbox/build_tools/svcctl/topological/runner.go: the tasks with
-- their dependencies turned round.

pub mod Edges
pub mod Order
use mathlib.Core.List.{filter_map}
use mathlib.Core.Option
use dbx_build_tools.Base.{
  ℕ, zero, suc, Bool, Option, none, some, List, [], ◌∷◌, ◌++◌, map, Memᴰ, Str, has, str_eq, lookup,
  insert, if◌then◌else◌,
}
use dbx_build_tools.Topological.Task.{TaskOps}

-- The local variables of the first loop: `seen`, `allTasks`, `tasks` and `reversedDeps`.
pub record Turning (T : Type 0) : Type 0 where
  pub seen : List Str
  pub all_tasks : List T
  pub queue : List T
  pub reversed_deps : List (Str × List T)

-- What the first loop leaves: `allTasks`, each to be wrapped as a `reversedTask`, and `reversedDeps`.
pub record Turned (T : Type 0) : Type 0 where
  pub all_tasks : List T
  pub reversed_deps : List (Str × List T)

module _ {T : Type 0} where
  -- `m[k]` of a map to slices: a missing key gives the empty one.
  unfoldable pub slice_at : Str → List (Str × List T) → List T
  slice_at k m = Option.get_or (lookup k m) []

  unfoldable pub append_at : Str → T → List (Str × List T) → List (Str × List T)
  append_at k t m = insert k (slice_at k m ++ t ∷ []) m

module _ {T : Type 0} (ops : TaskOps T) where
  open ops use {key, dependents}

  -- `reversedDeps[dep.Key()] = append(reversedDeps[dep.Key()], task)` for each dependency.
  unfoldable pub add_edges : T → List T → List (Str × List T) → List (Str × List T)
  unfolding append_at slice_at
  add_edges task [] m = m
  add_edges task (dep ∷ deps) m = add_edges task deps (append_at (key dep) task m)

  unfoldable pub turn : T → Turning T → Turning T
  turn task w = if has (key task) w.seen then w else record w {
    seen = key task ∷ w.seen;
    all_tasks = w.all_tasks ++ task ∷ [];
    queue = w.queue ++ dependents task;
    reversed_deps = add_edges task (dependents task) w.reversed_deps;
  }

  -- `for len(tasks) != 0`; `none` means that the fuel ran out.
  unfoldable pub turn_loop : ℕ → Turning T → Option (Turned T)
  turn_loop zero w = elim w.queue [
    | [] ↦ some (record { all_tasks = w.all_tasks; reversed_deps = w.reversed_deps })
    | _ ∷ _ ↦ none
  ]
  turn_loop (suc fuel) w = elim w.queue [
    | [] ↦ some (record { all_tasks = w.all_tasks; reversed_deps = w.reversed_deps })
    | task ∷ rest ↦ turn_loop fuel (turn task (record w { queue = rest }))
  ]

  unfoldable pub turn_all : ℕ → List T → Option (Turned T)
  turn_all fuel tasks =
      turn_loop fuel (record { seen = []; all_tasks = []; queue = tasks; reversed_deps = [] })

  -- `reversedTasksByKey[key]` after all the writes, of which the last one counts; `none` is the nil
  -- pointer of a missing key.
  unfoldable pub by_key : Str → List T → Option T
  by_key k [] = none
  by_key k (t ∷ ts) = elim (by_key k ts) [
    | some later ↦ some later
    | none ↦ if str_eq k (key t) then some t else none
  ]

  -- The slice `dependents` of the wrapper of a task, nil pointers included.
  unfoldable pub turned_slots : Turned T → T → List (Option T)
  turned_slots r task =
      map (λ dep. by_key (key dep) r.all_tasks) (slice_at (key task) r.reversed_deps)

  -- A `reversedTask` as a task: it stands for the task that it wraps.
  unfoldable pub turned_ops : Turned T → TaskOps T
  turned_ops r = record {
    key = key;
    dependents = λ task. filter_map (λ slot. slot) (turned_slots r task);
  }
