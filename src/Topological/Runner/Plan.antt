-- ===== src/Topological/Runner/Plan.antt =====
-- What the pool of go/src/dropbox/build_tools/svcctl/topological/runner.go promises, without its
-- workers, lock, condition variable and lists: tasks start when their dependencies are done, and end.
use dbx_build_tools.Base.{
  ℕ, ◌+◌, ◌≡◌, refl, ◌||◌, Bool, true, some, map, Memᴰ, Str, has, occ, str_eq, str_eq_iff,
  get_elem?, if◌then◌else◌, arith,
}
use dbx_build_tools.Topological.Task.{TaskOps}
use dbx_build_tools.Topological.Runner.{
  looping, running, waiting, finished, Pool, broadcast, pass_at, Step, enters, passes, fails, Runs,
  here, next,
}
use dbx_build_tools.Topological.Runner.Workers.{
  pass_at-looping, Entered, stops, waits, takes, Failed, first, later, fail_at-Failed,
  enter_at-Entered, broadcast-running,
}
use dbx_build_tools.Topological.Runner.Account.{held, held-set, held-broadcast}
use dbx_build_tools.Topological.Runner.Order.{ready_iff}

-- How often a key is listed and running, and whether it is done.
pub record Plan : Type 0 where
  pub listed : Str → ℕ
  pub started : Str → ℕ
  pub done : Str → Bool

module _ {T : Type 0} (ops : TaskOps T) where
  open ops use {key, dependents}

  abbrev pub one_of : T → Str → ℕ
  one_of t k = if str_eq k (key t) then 1 else 0

  -- A step of the plan. Only a task whose dependencies are all done is started.
  pub data PlanStep (a b : Plan) : Type 0 where
    rests :
        ((k : Str) → b.listed k ≡ a.listed k)
        → ((k : Str) → b.started k ≡ a.started k)
        → ((k : Str) → b.done k ≡ a.done k)
        → PlanStep a b
    starts :
        (t : T)
        → ((d : T) → Memᴰ d (dependents t) → a.done (key d) ≡ true)
        → ((k : Str) → a.listed k ≡ one_of t k + b.listed k)
        → ((k : Str) → b.started k ≡ one_of t k + a.started k)
        → ((k : Str) → b.done k ≡ a.done k)
        → PlanStep a b
    ends :
        (t : T)
        → ((k : Str) → b.listed k ≡ a.listed k)
        → ((k : Str) → a.started k ≡ one_of t k + b.started k)
        → ((k : Str) → b.done k ≡ (str_eq k (key t) || a.done k))
        → PlanStep a b
    gives_up :
        (t : T)
        → ((k : Str) → b.listed k ≡ a.listed k)
        → ((k : Str) → a.started k ≡ one_of t k + b.started k)
        → ((k : Str) → b.done k ≡ a.done k)
        → PlanStep a b

  pub data Plans (a : Plan) : Plan → Type 0 where
    no_step : Plans a a
    then_step : {b c : Plan} → Plans a b → PlanStep b c → Plans a c

module _ {T E : Type 0} (ops : TaskOps T) where
  open ops use {key, dependents}

  -- The plan that a pool stands for.
  abbrev pub plan_of : Pool T E → Plan
  plan_of p = record {
    listed = λ k. occ k (map key p.runner.tasks);
    started = λ k. held ops k p.workers;
    done = λ k. has k p.runner.completed;
  }

  PlanStep-Entered :
      {i : ℕ} {p q : Pool T E}
      → get_elem? p.workers i ≡ some looping
      → Entered ops i p q
      → PlanStep ops (plan_of p) (plan_of q)
  PlanStep-Entered {i} {p} g (stops why e) = rw e (
      rests (λ k. refl) (λ k. omega (arith, held-set ops k p.workers i finished looping g))
        (λ k. refl))
  PlanStep-Entered {i} {p} g (waits left alive none_ready e) = rw e (
      rests (λ k. refl) (λ k. omega (arith, held-set ops k p.workers i waiting looping g))
        (λ k. refl))
  PlanStep-Entered {i} {p} g (takes t rest alive taken e) = rw e (
      starts t ((ready_iff ops p.runner.completed t).0 taken.is_ready) taken.keys_split
        (λ k. omega (arith, held-set ops k p.workers i (running t) looping g)) (λ k. refl))

  PlanStep-Failed :
      {i : ℕ} {e : E} {p q : Pool T E} (t : T)
      → get_elem? p.workers i ≡ some (running t)
      → Failed ops i e p q
      → PlanStep ops (plan_of p) (plan_of q)
  PlanStep-Failed {i} {e} {p} t g (first clean eq) =
      let g' = (broadcast-running p.workers i t).1 g in
      rw eq (
        gives_up t (λ k. refl)
          (λ k. omega (
            arith,
            held-set ops k (broadcast p.workers) i finished (running t) g',
            held-broadcast ops k p.workers,
          ))
          (λ k. refl))
  PlanStep-Failed {i} {e} {p} t g (later old broken eq) = rw eq (
      gives_up t (λ k. refl) (λ k. omega (arith, held-set ops k p.workers i finished (running t) g))
        (λ k. refl))

  PlanStep-pass_at :
      (i : ℕ) (t : T) (p : Pool T E)
      → get_elem? p.workers i ≡ some (running t)
      → PlanStep ops (plan_of p) (plan_of (pass_at ops i t p))
  unfolding pass_at has
  PlanStep-pass_at i t p g =
      let g' = (broadcast-running p.workers i t).1 g in
      ends t (λ k. refl)
        (λ k. omega (
          arith,
          held-set ops k (broadcast p.workers) i looping (running t) g',
          held-broadcast ops k p.workers,
        ))
        (λ k. ground (arith, str_eq_iff k (key t)))

  Plans-Step :
      {a : Plan} {p q : Pool T E} → Step ops p q → Plans ops a (plan_of p) → Plans ops a (plan_of q)
  Plans-Step {a} {p} (enters i g) h = then_step h (PlanStep-Entered g (enter_at-Entered ops i p))
  Plans-Step {a} {p} (passes i t g) h =
      then_step (then_step h (PlanStep-pass_at i t p g)) (
        PlanStep-Entered (pass_at-looping ops i t p g) (enter_at-Entered ops i (pass_at ops i t p)))
  Plans-Step {a} {p} (fails i t e g) h =
      then_step h (PlanStep-Failed t g (fail_at-Failed ops i e p))

  -- The pool implements the plan: whatever its workers do, in whatever order, is a sequence of steps
  -- of the plan from what the first pool stands for to what the last one does.
  pub Runs-Plans : {p q : Pool T E} → Runs ops p q → Plans ops (plan_of p) (plan_of q)
  Runs-Plans here = no_step
  Runs-Plans (next r s) = Plans-Step s (Runs-Plans r)
