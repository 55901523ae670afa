-- ===== src/Topological/Task.antt =====
-- The `Task` interface of go/src/dropbox/build_tools/svcctl/topological/runner.go, and the walk
-- over dependencies by which `uniqueDeps` collects the tasks of a runner.
use dbx_build_tools.Base.{
  ℕ, zero, suc, Option, none, some, List, [], ◌∷◌, ◌++◌, Memᴰ, Str, has, if◌then◌else◌,
}

-- `Run` is the environment's: its outcome is chosen at each step of the pool.
pub record TaskOps (T : Type 0) : Type 0 where
  pub key : T → Str
  pub dependents : T → List T

-- The local variables of `uniqueDeps`.
pub record Walk (T : Type 0) : Type 0 where
  pub seen : List Str
  pub deps : List T
  pub queue : List T

module _ {T : Type 0} (ops : TaskOps T) where
  open ops use {key, dependents}

  -- The body of the loop, after `task` left the head of the queue.
  unfoldable pub visit : T → Walk T → Walk T
  visit task w = if has (key task) w.seen then w else record w {
    seen = key task ∷ w.seen;
    deps = w.deps ++ task ∷ [];
    queue = w.queue ++ dependents task;
  }

  -- `for len(queue) > 0`; `none` means that the fuel ran out.
  unfoldable pub unique_loop : ℕ → Walk T → Option (List T)
  unique_loop zero w = elim w.queue [ [] ↦ some w.deps | _ ∷ _ ↦ none ]
  unique_loop (suc fuel) w = elim w.queue [
    | [] ↦ some w.deps
    | task ∷ rest ↦ unique_loop fuel (visit task (record w { queue = rest }))
  ]

  unfoldable pub unique_deps : ℕ → List T → Option (List T)
  unique_deps fuel tasks = unique_loop fuel (record { seen = []; deps = []; queue = tasks })

  -- What can be reached from the given tasks by dependencies.
  pub data Reaches (tasks : List T) : T → Type 0 where
    root : {t : T} → Memᴰ t tasks → Reaches tasks t
    step : {t d : T} → Reaches tasks t → Memᴰ d (dependents t) → Reaches tasks d
