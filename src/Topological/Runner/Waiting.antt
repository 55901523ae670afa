-- ===== src/Topological/Runner/Waiting.antt =====
-- `cv.Wait()` and `cv.Broadcast()` of
-- go/src/dropbox/build_tools/svcctl/topological/runner.go.
use dbx_build_tools.Base.{get_elem?-set}
use dbx_build_tools.Base.{
  ℕ, zero, suc, ◌*◌, ◌==◌, ◌≡◌, refl, subst, ◌≢◌, ◌⊎◌, inl, inr, Bool, true, false, none, some,
  List, [], map, Memᴰ, not-Memᴰ-nil, Bool-cases, set, Distinct, get_elem?, replicate, arith,
}
use dbx_build_tools.Topological.Task.{TaskOps}
use dbx_build_tools.Topological.Runner.Account.{Runs-Account}
use dbx_build_tools.Topological.Runner.{
  Worker, looping, running, waiting, finished, Pool, broadcast, pass_at, new_pool, Step, enters,
  passes, fails, Runs, here, next, ready,
}
use dbx_build_tools.Topological.Runner.Workers.{
  Entered, stops, waits, takes, enter_at-Entered, broadcast-running, broadcast-finished,
  broadcast-waiting, Failed, first, later, fail_at-Failed, pass_at-looping,
}

module _ {T : Type 0} where
  replicate-looping :
      (n i : ℕ) (w : Worker T) → get_elem? (replicate n looping) i ≡ some w → w ≡ looping
  replicate-looping zero i w h = cc
  replicate-looping (suc n) zero w h = cc
  replicate-looping (suc n) (suc i) w h = replicate-looping n i w h

  -- Writing `w`, other than `v`, leaves every `v` that is found an old one.
  found_before :
      (ws : List (Worker T)) (i j : ℕ) (w v : Worker T) {old : Worker T}
      → get_elem? ws i ≡ some old
      → w ≢ v
      → get_elem? (set ws i w) j ≡ some v
      → get_elem? ws j ≡ some v
  found_before ws i j w v g other h = elim (Bool-cases (i == j)) [
    | inl e ↦ absurd (other (ground (arith, get_elem?-set ws i j w g)))
    | inr e ↦ ground (arith, get_elem?-set ws i j w g)
  ]

module _ {T E : Type 0} (ops : TaskOps T) where
  -- Tasks are left, none of them is ready, and nobody failed.
  pub record Stalled (p : Pool T E) : Type 0 where
    pub some_left : p.runner.tasks ≢ []
    pub alive : p.runner.die ≡ false
    pub none_ready : (t : T) → Memᴰ t p.runner.tasks → ready ops p.runner.completed t ≡ false

  pub record Attentive (p : Pool T E) : Type 0 where
    pub idle : (i : ℕ) → get_elem? p.workers i ≡ some waiting → Stalled p
    pub over :
        (i : ℕ)
        → get_elem? p.workers i ≡ some finished
        → (p.runner.tasks ≡ []) ⊎ (p.runner.die ≡ true)

  Entered-Attentive :
      {i : ℕ} {p q : Pool T E}
      → get_elem? p.workers i ≡ some looping
      → Entered ops i p q
      → Attentive p
      → Attentive q
  Entered-Attentive {i} {p} g (stops why e) a = rw e (record {
    idle = λ j h.
        let s = a.idle j (found_before p.workers i j finished waiting g (λ x. cc) h) in
        record { some_left = s.some_left; alive = s.alive; none_ready = s.none_ready };
    over = λ j h. why;
  })
  Entered-Attentive {i} {p} g (waits left alive none_ready e) a = rw e (record {
    idle = λ j h. record { some_left = left; alive = alive; none_ready = none_ready };
    over = λ j h. a.over j (found_before p.workers i j waiting finished g (λ x. cc) h);
  })
  Entered-Attentive {i} {p} g (takes t rest alive taken e) a = rw e (record {
    idle = λ j h.
        let s = a.idle j (found_before p.workers i j (running t) waiting g (λ x. cc) h) in
        absurd (contrary (s.none_ready t ((taken.members t).1 (inl refl))) taken.is_ready);
    over = λ j h.
        absurd (held_up (a.over j (found_before p.workers i j (running t) finished g (λ x. cc) h)));
  })
    where
      contrary : {b : Bool} → b ≡ false → b ≡ true → ⊥
      contrary x y = cc

      held_up : (p.runner.tasks ≡ []) ⊎ (p.runner.die ≡ true) → ⊥
      held_up (inl empty) = not-Memᴰ-nil (subst (Memᴰ t) empty ((taken.members t).1 (inl refl)))
      held_up (inr dead) = cc

  Failed-Attentive :
      {i : ℕ} {e : E} {p q : Pool T E} (t : T)
      → get_elem? p.workers i ≡ some (running t)
      → ((p.runner.err ≢ none) → p.runner.die ≡ true)
      → Failed ops i e p q
      → Attentive p
      → Attentive q
  Failed-Attentive {i} {e} {p} t g die (first clean eq) a =
      let g' = (broadcast-running p.workers i t).1 g in
      rw eq (record {
        idle = λ j h. absurd (
            broadcast-waiting p.workers j
              (found_before (broadcast p.workers) i j finished waiting g' (λ x. cc) h));
        over = λ j h. inr refl;
      })
  Failed-Attentive {i} {e} {p} t g die (later old broken eq) a =
      let dead = die (λ x. cc) in
      rw eq (record {
        idle = λ j h.
            let s = a.idle j (found_before p.workers i j finished waiting g (λ x. cc) h) in
            record { some_left = s.some_left; alive = s.alive; none_ready = s.none_ready };
        over = λ j h. inr dead;
      })

  pass_at-Attentive :
      (p : Pool T E) (i : ℕ) (t : T)
      → get_elem? p.workers i ≡ some (running t)
      → Attentive p
      → Attentive (pass_at ops i t p)
  unfolding pass_at
  pass_at-Attentive p i t g a =
      let g' = (broadcast-running p.workers i t).1 g in
      record {
        idle = λ j h. absurd (
            broadcast-waiting p.workers j
              (found_before (broadcast p.workers) i j looping waiting g' (λ x. cc) h));
        over = λ j h. a.over j (
            (broadcast-finished p.workers j).0
              (found_before (broadcast p.workers) i j looping finished g' (λ x. cc) h));
      }

  Step-Attentive :
      {p q : Pool T E}
      → Step ops p q
      → ((p.runner.err ≢ none) → p.runner.die ≡ true)
      → Attentive p
      → Attentive q
  Step-Attentive {p} (enters i g) die a = Entered-Attentive g (enter_at-Entered ops i p) a
  Step-Attentive {p} (passes i t g) die a =
      Entered-Attentive (pass_at-looping ops i t p g) (enter_at-Entered ops i (pass_at ops i t p))
        (pass_at-Attentive p i t g a)
  Step-Attentive {p} (fails i t e g) die a = Failed-Attentive t g die (fail_at-Failed ops i e p) a

  new_pool-Attentive : (cpus : ℕ) (init : List T) → Attentive (new_pool cpus init)
  unfolding new_pool
  new_pool-Attentive cpus init = record {
    idle = λ i h. absurd (looping_only i waiting h (λ x. cc));
    over = λ i h. absurd (looping_only i finished h (λ x. cc));
  }
    where
      looping_only :
          (i : ℕ) (w : Worker T)
          → get_elem? (replicate (suc (cpus * 2)) looping) i ≡ some w
          → (w ≢ looping)
          → ⊥
      looping_only i w h other = other (replicate-looping (suc (cpus * 2)) i w h)

module _ {T E : Type 0} (ops : TaskOps T) (init : List T)
    (distinct : Distinct (map ops.key init)) where
  -- When the collected tasks have different keys, then whatever the workers do: while some worker waits, tasks are left, none of
  -- them is ready and none failed; and a worker that returned found no task left or a failure.
  pub Runs-Attentive : (cpus : ℕ) {p : Pool T E} → Runs ops (new_pool cpus init) p → Attentive ops p
  Runs-Attentive cpus here = new_pool-Attentive ops cpus init
  Runs-Attentive cpus (next r s) =
      let a = Runs-Account ops init distinct cpus r in
      Step-Attentive ops s a.die_iff.1 (Runs-Attentive cpus r)
