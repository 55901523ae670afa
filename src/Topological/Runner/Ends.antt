-- ===== src/Topological/Runner/Ends.antt =====
-- How many steps the workers of `Run` in
-- go/src/dropbox/build_tools/svcctl/topological/runner.go make.
use dbx_build_tools.Base.{
  ℕ, zero, suc, ◌+◌, ◌*◌, ◌≤◌, ◌<◌, ◌≡◌, refl, ap, some, List, [], ◌∷◌, set, get_elem?, length,
  replicate, arith,
}
use dbx_build_tools.Topological.Task.{TaskOps}
use dbx_build_tools.Topological.Runner.{
  Worker, looping, running, waiting, finished, Pool, wake, broadcast, pass_at, new_pool, Step,
  enters, passes, fails, Runs, here, next,
}
use dbx_build_tools.Topological.Runner.Workers.{
  Entered, stops, waits, takes, enter_at-Entered, Failed, first, later, fail_at-Failed,
  broadcast-running, pass_at-looping,
}
use dbx_build_tools.Topological.Runner.Outcome.{Runs-length}

module _ {T : Type 0} where
  -- What a worker may still do before it has to be woken, among `n` workers: a task that ends wakes
  -- at most all of them.
  abbrev effort : ℕ → Worker T → ℕ
  effort n looping = 1
  effort n (running t) = n + 2
  effort n waiting = 0
  effort n finished = 0

  efforts : ℕ → List (Worker T) → ℕ
  efforts n [] = 0
  efforts n (w ∷ ws) = effort n w + efforts n ws

  efforts-set :
      (n : ℕ) (ws : List (Worker T)) (i : ℕ) (w v : Worker T)
      → get_elem? ws i ≡ some v
      → efforts n (set ws i w) + effort n v ≡ efforts n ws + effort n w
  unfolding efforts
  efforts-set n [] i w v h = cc
  efforts-set n (x ∷ ws) zero w v h = ground arith
  efforts-set n (x ∷ ws) (suc i) w v h = omega (arith, efforts-set n ws i w v h)

  efforts-broadcast :
      (n : ℕ) (ws : List (Worker T)) → efforts n (broadcast ws) ≤ efforts n ws + length ws
  unfolding efforts broadcast wake
  efforts-broadcast n [] = omega arith
  efforts-broadcast n (looping ∷ ws) = omega (arith, efforts-broadcast n ws)
  efforts-broadcast n (running t ∷ ws) = omega (arith, efforts-broadcast n ws)
  efforts-broadcast n (waiting ∷ ws) = omega (arith, efforts-broadcast n ws)
  efforts-broadcast n (finished ∷ ws) = omega (arith, efforts-broadcast n ws)

efforts-replicate : (T : Type 0) (n m : ℕ) → efforts {T = T} n (replicate m looping) ≡ m
unfolding efforts
efforts-replicate T n zero = refl
efforts-replicate T n (suc m) = omega (arith, efforts-replicate T n m)

module _ {T E : Type 0} (ops : TaskOps T) where
  work : ℕ → Pool T E → ℕ
  work n p = (n + 3) * length p.runner.tasks + efforts n p.workers

  Entered-work :
      (n : ℕ) {i : ℕ} {p q : Pool T E}
      → get_elem? p.workers i ≡ some looping
      → Entered ops i p q
      → work n q < work n p
  unfolding work
  Entered-work n {i} {p} g (stops why e) =
      rw e (omega (arith, efforts-set n p.workers i finished looping g))
  Entered-work n {i} {p} g (waits a b c e) =
      rw e (omega (arith, efforts-set n p.workers i waiting looping g))
  Entered-work n {i} {p} g (takes t rest alive taken e) =
      let fewer = ap (λ (l : ℕ). (n + 3) * l) taken.shorter in
      rw e (omega (arith, efforts-set n p.workers i (running t) looping g, fewer))

  pass_at-work :
      (n i : ℕ) (t : T) (p : Pool T E)
      → get_elem? p.workers i ≡ some (running t)
      → length p.workers ≡ n
      → work n (pass_at ops i t p) < work n p
  unfolding work pass_at
  pass_at-work n i t p g l =
      let g' = (broadcast-running p.workers i t).1 g in
      omega (
        arith,
        efforts-set n (broadcast p.workers) i looping (running t) g',
        efforts-broadcast n p.workers,
      )

  Failed-work :
      (n : ℕ) {i : ℕ} {e : E} {p q : Pool T E} (t : T)
      → get_elem? p.workers i ≡ some (running t)
      → length p.workers ≡ n
      → Failed ops i e p q
      → work n q < work n p
  unfolding work
  Failed-work n {i} {e} {p} t g l (first clean eq) =
      let g' = (broadcast-running p.workers i t).1 g in
      rw eq (
        omega (
          arith,
          efforts-set n (broadcast p.workers) i finished (running t) g',
          efforts-broadcast n p.workers,
        ))
  Failed-work n {i} {e} {p} t g l (later old broken eq) =
      rw eq (omega (arith, efforts-set n p.workers i finished (running t) g))

  Step-work : (n : ℕ) {p q : Pool T E} → length p.workers ≡ n → Step ops p q → work n q < work n p
  Step-work n {p} l (enters i g) = Entered-work n g (enter_at-Entered ops i p)
  Step-work n {p} l (passes i t g) = omega (
    arith,
    Entered-work n (pass_at-looping ops i t p g) (enter_at-Entered ops i (pass_at ops i t p)),
    pass_at-work n i t p g l,
  )
  Step-work n {p} l (fails i t e g) = Failed-work n t g l (fail_at-Failed ops i e p)

  -- The number of steps of a run.
  pub steps : {p q : Pool T E} → Runs ops p q → ℕ
  steps here = 0
  steps (next r s) = suc (steps r)

  steps-work :
      (cpus : ℕ) (init : List T) {p : Pool T E} (r : Runs ops (new_pool cpus init) p)
      → steps r + work (suc (cpus * 2)) p ≤ work (suc (cpus * 2)) (new_pool {E = E} cpus init)
  unfolding steps
  steps-work cpus init here = omega arith
  steps-work cpus init (next r s) =
      omega
        (arith, steps-work cpus init r, Step-work (suc (cpus * 2)) (Runs-length ops cpus init r) s)

  -- No run goes on for ever: with `2 * cpus + 1` workers it makes at most `2 * cpus + 4` steps for
  -- each collected task and one more for each worker.
  pub run_bounded :
      (cpus : ℕ) (init : List T) {p : Pool T E} (r : Runs ops (new_pool cpus init) p)
      → steps r ≤ (cpus * 2 + 4) * length init + (cpus * 2 + 1)
  unfolding work new_pool
  run_bounded cpus init r =
      omega (arith, steps-work cpus init r, efforts-replicate T (suc (cpus * 2)) (suc (cpus * 2)))
