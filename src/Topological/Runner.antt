-- ===== src/Topological/Runner.antt =====
-- The runner of go/src/dropbox/build_tools/svcctl/topological/runner.go as a pool of workers.
-- What a worker does between taking the lock and giving it up is one step: `enter_at` is the test
-- of its loop with `nextTask`, `pass_at` and `fail_at` are what follows the return of `Run`.
pub mod Workers
pub mod Account
pub mod Order
pub mod Waiting
pub mod Finish
pub mod Outcome
pub mod Ends
pub mod Plan
use mathlib.Core.Option
use dbx_build_tools.Base.{
  ℕ, suc, ◌*◌, Bool, true, false, not, ◌&&◌, Option, none, some, List, [], ◌∷◌, ◌≡◌, Str, has, set,
  get_elem?, replicate, if◌then◌else◌,
}
use dbx_build_tools.Topological.Task.{TaskOps}

-- The fields that the lock protects; of the map `completed` its keys, all of which map to true.
pub record Runner (T E : Type 0) : Type 0 where
  pub tasks : List T
  pub completed : List Str
  pub die : Bool
  pub err : Option E

-- Where a worker stands: about to test its loop with the lock held, in `task.Run()`, in
-- `cv.Wait()`, or returned.
pub data Worker (T : Type 0) : Type 0 where
  looping : Worker T
  running : T → Worker T
  waiting : Worker T
  finished : Worker T

pub record Pool (T E : Type 0) : Type 0 where
  pub runner : Runner T E
  pub workers : List (Worker T)

-- `ts.completed[key] = true`
unfoldable pub insert_key : Str → List Str → List Str
insert_key k s = if has k s then s else k ∷ s

-- `cv.Broadcast()`: a worker that waits tests its loop again.
unfoldable pub wake : {T : Type 0} → Worker T → Worker T
wake waiting = looping
wake looping = looping
wake (running t) = running t
wake finished = finished

unfoldable pub broadcast : {T : Type 0} → List (Worker T) → List (Worker T)
unfolding wake
broadcast [] = []
broadcast (w ∷ ws) = wake w ∷ broadcast ws

module _ {T : Type 0} (ops : TaskOps T) where
  open ops use {key, dependents}

  -- `ready` on the dependencies of a task.
  unfoldable pub all_completed : List Str → List T → Bool
  all_completed completed [] = true
  all_completed completed (d ∷ ds) =
      if not (has (key d) completed) then false else all_completed completed ds

  unfoldable pub ready : List Str → T → Bool
  unfolding all_completed
  ready completed task = all_completed completed (dependents task)

  -- The loop of `nextTask`: the first ready task, and the tasks without it.
  unfoldable pub take_ready : List Str → List T → Option (T × List T)
  take_ready completed [] = none
  take_ready completed (t ∷ ts) =
      if ready completed t
      then some (t, ts)
      else Option.map (λ (u, rest). (u, t ∷ rest)) (take_ready completed ts)

module _ {T E : Type 0} where
  -- `for len(ts.tasks) > 0 && !ts.die`
  abbrev pub goes_on : Runner T E → Bool
  goes_on r = (elim r.tasks [ [] ↦ false | _ ∷ _ ↦ true ]) && not r.die

  -- The runner, and whether it broadcasts.
  unfoldable pub set_err : E → Runner T E → Runner T E × Bool
  set_err e r = elim r.err [
    | some _ ↦ (r, false)
    | none ↦ (record r { err = some e; die = true }, true)
  ]

  -- `NewRunner` on the list that `uniqueDeps` collected, and the workers that `Run` starts:
  -- `for i := 0; i <= runtime.NumCPU()*2; i++`.
  unfoldable pub new_pool : ℕ → List T → Pool T E
  new_pool cpus deps = record {
    runner = record { tasks = deps; completed = []; die = false; err = none };
    workers = replicate (suc (cpus * 2)) looping;
  }

module _ {T E : Type 0} (ops : TaskOps T) where
  open ops use {key}

  -- `none` is the return after `cv.Wait()`.
  unfoldable pub next_task : Runner T E → Runner T E × Option T
  next_task r = elim (take_ready ops r.completed r.tasks) [
    | none ↦ (r, none)
    | some (t, rest) ↦ (record r { tasks = rest }, some t)
  ]

  unfoldable pub mark_done : T → Runner T E → Runner T E
  unfolding insert_key
  mark_done task r = record r { completed = insert_key (key task) r.completed }

  -- One test of the loop, and `nextTask` if it passes.
  unfoldable pub enter : Runner T E → Runner T E × Worker T
  unfolding next_task
  enter r =
      if goes_on r
      then (let (r', task) = next_task r in (r', elim task [ none ↦ waiting | some t ↦ running t ]))
      else (r, finished)

  unfoldable pub enter_at : ℕ → Pool T E → Pool T E
  unfolding enter
  enter_at i p = let (r, w) = enter p.runner in record { runner = r; workers = set p.workers i w }

  -- `markDone(task)`: worker `i` goes on with its loop, the lock held.
  unfoldable pub pass_at : ℕ → T → Pool T E → Pool T E
  unfolding mark_done broadcast
  pass_at i task p = record {
    runner = mark_done task p.runner;
    workers = set (broadcast p.workers) i looping;
  }

  -- `setErr(performErr)` and `break`.
  unfoldable pub fail_at : ℕ → E → Pool T E → Pool T E
  unfolding set_err broadcast
  fail_at i e p =
      let (r, all) = set_err e p.runner in
      record {
        runner = r;
        workers = set (if all then broadcast p.workers else p.workers) i finished;
      }

  -- A step of some worker; the environment chooses which, and what `Run` returns.
  pub data Step (p : Pool T E) : Pool T E → Type 0 where
    enters : (i : ℕ) → get_elem? p.workers i ≡ some looping → Step p (enter_at i p)
    passes :
        (i : ℕ) (t : T)
        → get_elem? p.workers i ≡ some (running t)
        → Step p (enter_at i (pass_at i t p))
    fails :
        (i : ℕ) (t : T) (e : E) → get_elem? p.workers i ≡ some (running t) → Step p (fail_at i e p)

  pub data Runs (p : Pool T E) : Pool T E → Type 0 where
    here : Runs p p
    next : {q r : Pool T E} → Runs p q → Step q r → Runs p r
