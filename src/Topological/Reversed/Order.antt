-- ===== src/Topological/Reversed/Order.antt =====
-- Runs of the runner that `NewReversedRunner` of
-- go/src/dropbox/build_tools/svcctl/topological/runner.go makes.
use dbx_build_tools.Base.{ℕ, ◌≡◌, true, some, List, map, Memᴰ, has, get_elem?, Distinct}
use dbx_build_tools.Topological.Task.{TaskOps}
use dbx_build_tools.Topological.Runner.{running, Pool, new_pool, Runs}
use dbx_build_tools.Topological.Runner.Order.{Runs-Ordered}
use dbx_build_tools.Topological.Reversed.{Turned, turned_ops}
use dbx_build_tools.Topological.Reversed.Edges.{IsTurned}

-- In a run of the reversed runner on tasks with different keys, a task that a worker runs has all the tasks that depend on it
-- completed: a service is stopped only after those that need it.
pub reversed_order :
    {T E : Type 0} (ops : TaskOps T) (tasks : List T) (r : Turned T)
    → IsTurned ops tasks r
    → (deps : List T) → Distinct (map ops.key deps)
    → (cpus : ℕ) {p : Pool T E} → Runs (turned_ops ops r) (new_pool cpus deps) p
    → (i : ℕ) (t d : T) → get_elem? p.workers i ≡ some (running t)
    → Memᴰ d r.all_tasks
    → has (ops.key t) (map ops.key (ops.dependents d)) ≡ true
    → has (ops.key d) p.runner.completed ≡ true
unfolding turned_ops
reversed_order ops tasks r turned deps distinct cpus {p} run i t d g m needs =
    (Runs-Ordered (turned_ops ops r) deps distinct cpus run).in_hand i t g d
      ((turned.edges t d).1 (m, needs))
