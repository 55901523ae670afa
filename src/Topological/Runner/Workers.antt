-- ===== src/Topological/Runner/Workers.antt =====
-- The list of the workers of go/src/dropbox/build_tools/svcctl/topological/runner.go
-- under a write and under a broadcast, and the cases of one test of their loop.
use dbx_build_tools.Base.{get_elem?-set_eq}
use dbx_build_tools.Base.{
  ℕ, zero, suc, ◌+◌, ◌≡◌, refl, ap, ◌≢◌, ◌↔◌, ◌⊎◌, inl, inr, true, false, none, some, List, [], ◌∷◌,
  map, Memᴰ, Memᴰ-cons, not-Memᴰ-nil, Option-cases, Bool-cases, Str, occ, str_eq, set, get_elem?,
  length, replicate, if◌then◌else◌, arith,
}
use mathlib.Core.Option
use dbx_build_tools.Topological.Task.{TaskOps}
use dbx_build_tools.Topological.Runner.{
  Runner, Worker, looping, running, waiting, finished, Pool, wake, broadcast, ready, take_ready,
  enter_at, pass_at, fail_at, goes_on,
}

module _ {T : Type 0} where
  pub get_elem?-broadcast :
      (ws : List (Worker T)) (j : ℕ) → get_elem? (broadcast ws) j ≡ Option.map wake (get_elem? ws j)
  unfolding broadcast
  get_elem?-broadcast [] j = refl
  get_elem?-broadcast (x ∷ ws) zero = refl
  get_elem?-broadcast (x ∷ ws) (suc j) = get_elem?-broadcast ws j

  pub length-broadcast : (ws : List (Worker T)) → length (broadcast ws) ≡ length ws
  unfolding broadcast
  length-broadcast [] = refl
  length-broadcast (w ∷ ws) = ap suc (length-broadcast ws)

  pub broadcast-running :
      (ws : List (Worker T)) (j : ℕ) (t : T)
      → (get_elem? (broadcast ws) j ≡ some (running t)) ↔ (get_elem? ws j ≡ some (running t))
  unfolding wake
  broadcast-running ws j t = ground (arith, get_elem?-broadcast ws j)

  pub broadcast-finished :
      (ws : List (Worker T)) (j : ℕ)
      → (get_elem? (broadcast ws) j ≡ some finished) ↔ (get_elem? ws j ≡ some finished)
  unfolding wake
  broadcast-finished ws j = ground (arith, get_elem?-broadcast ws j)

  pub broadcast-waiting : (ws : List (Worker T)) (j : ℕ) → get_elem? (broadcast ws) j ≢ some waiting
  unfolding wake
  broadcast-waiting ws j h = ground (arith, get_elem?-broadcast ws j)

  pub replicate-running : (n i : ℕ) (t : T) → get_elem? (replicate n looping) i ≢ some (running t)
  replicate-running zero i t h = cc
  replicate-running (suc n) zero t h = cc
  replicate-running (suc n) (suc i) t h = replicate-running n i t h

module _ {T : Type 0} (ops : TaskOps T) where
  open ops use {key, dependents}

  -- What `nextTask` takes: a ready task, out of the list.
  pub record Taken (completed : List Str) (ts : List T) (t : T) (rest : List T) : Type 0 where
    pub is_ready : ready ops completed t ≡ true
    pub keys_split :
        (k : Str) → occ k (map key ts) ≡ (if str_eq k (key t) then 1 else 0) + occ k (map key rest)
    pub members : (x : T) → Memᴰ x ts ↔ ((x ≡ t) ⊎ Memᴰ x rest)
    pub shorter : length ts ≡ suc (length rest)

  take_ready-cons :
      (completed : List Str) (x : T) (ts : List T) (t : T) (rest : List T)
      → Taken completed ts t rest
      → Taken completed (x ∷ ts) t (x ∷ rest)
  unfolding occ
  take_ready-cons completed x ts t rest h = record {
    is_ready = h.is_ready;
    keys_split = λ k. omega (arith, h.keys_split k);
    members = λ y. ground (arith, h.members y, Memᴰ-cons y x ts, Memᴰ-cons y x rest);
    shorter = ap suc h.shorter;
  }

  take_ready-cons_cases :
      (completed : List Str) (x : T) (ts : List T) (t : T) (rest : List T)
      → take_ready ops completed (x ∷ ts) ≡ some (t, rest)
      → (ready ops completed x ≡ true) × (x ≡ t) × (ts ≡ rest)
        ⊎ ((others : List T) × (take_ready ops completed ts ≡ some (t, others))
            × (rest ≡ x ∷ others))
  unfolding take_ready
  take_ready-cons_cases completed x ts t rest h = ground arith

  pub take_ready-Taken :
      (completed : List Str) (ts : List T) (t : T) (rest : List T)
      → take_ready ops completed ts ≡ some (t, rest)
      → Taken completed ts t rest
  unfolding take_ready occ
  take_ready-Taken completed [] t rest h = cc
  take_ready-Taken completed (x ∷ ts) t rest h =
      elim (take_ready-cons_cases completed x ts t rest h) [
        | inl (now, e, f) ↦
            rw (← e, ← f)
              (record {
                is_ready = now;
                keys_split = λ k. refl;
                members = λ y. Memᴰ-cons y x ts;
                shorter = refl;
              })
        | inr (others, r, e) ↦
            rw e
              (take_ready-cons completed x ts t others (take_ready-Taken completed ts t others r))
      ]

  pub take_ready-none :
      (completed : List Str) (ts : List T)
      → take_ready ops completed ts ≡ none
      → (t : T) → Memᴰ t ts
      → ready ops completed t ≡ false
  unfolding take_ready
  take_ready-none completed [] h t m = absurd (not-Memᴰ-nil m)
  take_ready-none completed (x ∷ ts) h t m = elim ((Memᴰ-cons t x ts).0 m) [
    | inl e ↦ rw e (ground arith)
    | inr later ↦ take_ready-none completed ts (ground arith) t later
  ]

module _ {T E : Type 0} (ops : TaskOps T) where
  open ops use {key, dependents}

  -- The three ends of one test of the loop by worker `i`.
  pub data Entered (i : ℕ) (p : Pool T E) (q : Pool T E) : Type 0 where
    stops :
        (p.runner.tasks ≡ []) ⊎ (p.runner.die ≡ true)
        → q ≡ record { runner = p.runner; workers = set p.workers i finished }
        → Entered i p q
    waits :
        p.runner.tasks ≢ []
        → p.runner.die ≡ false
        → ((t : T) → Memᴰ t p.runner.tasks → ready ops p.runner.completed t ≡ false)
        → q ≡ record { runner = p.runner; workers = set p.workers i waiting }
        → Entered i p q
    takes :
        (t : T) (rest : List T)
        → p.runner.die ≡ false
        → Taken ops p.runner.completed p.runner.tasks t rest
        → q ≡ record {
          runner = record {
            tasks = rest;
            completed = p.runner.completed;
            die = p.runner.die;
            err = p.runner.err;
          };
          workers = set p.workers i (running t);
        }
        → Entered i p q

  goes_on_no : (r : Runner T E) → goes_on r ≡ false → (r.tasks ≡ []) ⊎ (r.die ≡ true)
  goes_on_no r h = ground arith

  goes_on_yes : (r : Runner T E) → goes_on r ≡ true → (r.tasks ≢ []) × (r.die ≡ false)
  goes_on_yes r h = ground arith

  pub enter_at-Entered : (i : ℕ) (p : Pool T E) → Entered i p (enter_at ops i p)
  unfolding enter_at
  enter_at-Entered i p = elim (Bool-cases (goes_on p.runner)) [
    | inl on ↦ elim (Option-cases (take_ready ops p.runner.completed p.runner.tasks)) [
      | inl e ↦
          waits (goes_on_yes p.runner on).0 (goes_on_yes p.runner on).1
            (take_ready-none ops p.runner.completed p.runner.tasks e) (ground arith)
      | inr ((t, rest), e) ↦
          takes t rest (goes_on_yes p.runner on).1
            (take_ready-Taken ops p.runner.completed p.runner.tasks t rest e) (ground arith)
    ]
    | inr off ↦ stops (goes_on_no p.runner off) (ground arith)
  ]

  -- The two ends of a failed task: the first error stops the pool, a later one only its worker.
  pub data Failed (i : ℕ) (e : E) (p : Pool T E) (q : Pool T E) : Type 0 where
    first :
        p.runner.err ≡ none
        → q ≡ record {
          runner = record {
            tasks = p.runner.tasks;
            completed = p.runner.completed;
            die = true;
            err = some e;
          };
          workers = set (broadcast p.workers) i finished;
        }
        → Failed i e p q
    later :
        (old : E)
        → p.runner.err ≡ some old
        → q ≡ record { runner = p.runner; workers = set p.workers i finished }
        → Failed i e p q

  pub fail_at-Failed : (i : ℕ) (e : E) (p : Pool T E) → Failed i e p (fail_at ops i e p)
  unfolding fail_at
  fail_at-Failed i e p = elim (Option-cases p.runner.err) [
    | inl clean ↦ first clean (ground arith)
    | inr (old, broken) ↦ later old broken (ground arith)
  ]

  pub pass_at-looping :
      (i : ℕ) (t : T) (p : Pool T E)
      → get_elem? p.workers i ≡ some (running t)
      → get_elem? (pass_at ops i t p).workers i ≡ some looping
  unfolding pass_at
  pass_at-looping i t p g =
      get_elem?-set_eq (broadcast p.workers) i looping ((broadcast-running p.workers i t).1 g)
