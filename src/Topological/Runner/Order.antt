-- ===== src/Topological/Runner/Order.antt =====
-- The order in which `nextTask` of
-- go/src/dropbox/build_tools/svcctl/topological/runner.go hands out tasks.
use dbx_build_tools.Base.{get_elem?-set}
use dbx_build_tools.Base.{
  ℕ, suc, ◌*◌, ◌<◌, ◌==◌, ◌≡◌, refl, ◌∙◌, ap, sym, subst, ◌↔◌, ◌⊎◌, inl, inr, true, some, List, [],
  ◌∷◌, map, Memᴰ, Memᴰ-cons, not-Memᴰ-nil, Bool-cases, Str, has, occ, str_eq_iff, str_eq_refl, set,
  get_elem?, Distinct, arith,
}
use dbx_build_tools.Topological.Task.{TaskOps}
use dbx_build_tools.Topological.Runner.{
  Worker, looping, running, waiting, finished, Pool, broadcast, insert_key, pass_at, new_pool, Step,
  enters, passes, fails, Runs, here, next, ready, all_completed,
}
use dbx_build_tools.Topological.Runner.Workers.{
  Entered, stops, waits, takes, enter_at-Entered, broadcast-running, replicate-running, Failed,
  first, later, fail_at-Failed, pass_at-looping,
}
use dbx_build_tools.Topological.Runner.Account.{Account, Runs-Account}

module _ {T : Type 0} (ops : TaskOps T) where
  open ops use {key, dependents}

  pub all_completed_iff :
      (completed : List Str) (ds : List T)
      → (all_completed ops completed ds ≡ true)
        ↔ ((d : T) → Memᴰ d ds → has (key d) completed ≡ true)
  unfolding all_completed
  all_completed_iff completed [] = (λ _ d m. absurd (not-Memᴰ-nil m), λ _. refl)
  all_completed_iff completed (x ∷ ds) = (
    λ h d m. elim ((Memᴰ-cons d x ds).0 m) [
      | inl e ↦ rw e (ground arith)
      | inr n ↦ (all_completed_iff completed ds).0 (ground arith) d n
    ],
    λ h.
        let a = h x ((Memᴰ-cons x x ds).1 (inl refl)) in
        let b = (all_completed_iff completed ds).1 (λ d m. h d ((Memᴰ-cons d x ds).1 (inr m))) in
        ground arith,
  )

  -- `ready` says that the dependencies are completed.
  pub ready_iff :
      (completed : List Str) (t : T)
      → (ready ops completed t ≡ true)
        ↔ ((d : T) → Memᴰ d (dependents t) → has (key d) completed ≡ true)
  unfolding ready
  ready_iff completed t = all_completed_iff completed (dependents t)

  pub has-insert_key :
      (k j : Str) (s : List Str) → (has k (insert_key j s) ≡ true) ↔ ((k ≡ j) ⊎ (has k s ≡ true))
  unfolding insert_key has
  has-insert_key k j s = ground (arith, str_eq_iff k j)

  -- The dependencies of a task are among the completed keys.
  abbrev pub AreDone : List Str → T → Type 0
  AreDone completed t = (d : T) → Memᴰ d (dependents t) → has (key d) completed ≡ true

  AreDone-insert_key : (j : Str) (s : List Str) (t : T) → AreDone s t → AreDone (insert_key j s) t
  AreDone-insert_key j s t h d m = (has-insert_key (key d) j s).1 (inr (h d m))

  pub occ-mem : (init : List T) (t : T) → Memᴰ t init → 0 < occ (key t) (map key init)
  unfolding occ
  occ-mem [] t m = absurd (not-Memᴰ-nil m)
  occ-mem (x ∷ init) t m = elim ((Memᴰ-cons t x init).0 m) [
    | inl e ↦ rw e (ground (arith, str_eq_refl (key x)))
    | inr n ↦ omega (arith, occ-mem init t n)
  ]

  -- Of the tasks of a list with distinct keys, a key stands for one.
  pub eq_of_key :
      (init : List T) (s t : T)
      → Distinct (map key init)
      → Memᴰ s init
      → Memᴰ t init
      → key s ≡ key t
      → s ≡ t
  unfolding occ
  eq_of_key [] s t d ms mt e = absurd (not-Memᴰ-nil ms)
  eq_of_key (x ∷ init) s t d ms mt e = elim ((Memᴰ-cons s x init).0 ms) [
    | inl es ↦ elim ((Memᴰ-cons t x init).0 mt) [
      | inl et ↦ es ∙ sym et
      | inr nt ↦ absurd (clash t (occ-mem init t nt) (sym e ∙ ap key es))
    ]
    | inr ns ↦ elim ((Memᴰ-cons t x init).0 mt) [
      | inl et ↦ absurd (clash s (occ-mem init s ns) (e ∙ ap key et))
      | inr nt ↦ eq_of_key init s t (λ k. omega (arith, d k)) ns nt e
    ]
  ]
    where
      clash : (y : T) → 0 < occ (key y) (map key init) → key y ≡ key x → ⊥
      clash y again same = ground (arith, d (key y), again, str_eq_iff (key y) (key x))

module _ {T E : Type 0} (ops : TaskOps T) (init : List T) where
  open ops use {key, dependents}

  -- The dependencies of the tasks that are running, and of the collected tasks that are completed, are
  -- completed.
  pub record Ordered (p : Pool T E) : Type 0 where
    pub in_hand :
        (i : ℕ) (t : T)
        → get_elem? p.workers i ≡ some (running t)
        → AreDone ops p.runner.completed t
    pub done :
        (t : T)
        → Memᴰ t init
        → has (key t) p.runner.completed ≡ true
        → AreDone ops p.runner.completed t

  in_hand-set :
      (p : Pool T E) (ws : List (Worker T)) (i : ℕ) (w v : Worker T)
      → get_elem? ws i ≡ some v
      → ((t : T) → w ≡ running t → AreDone ops p.runner.completed t)
      → ((j : ℕ) (t : T) → get_elem? ws j ≡ some (running t) → AreDone ops p.runner.completed t)
      → (j : ℕ) (t : T) → get_elem? (set ws i w) j ≡ some (running t)
      → AreDone ops p.runner.completed t
  in_hand-set p ws i w v g new old j t h = elim (Bool-cases (i == j)) [
    | inl e ↦ new t (ground (arith, get_elem?-set ws i j w g))
    | inr e ↦ old j t (ground (arith, get_elem?-set ws i j w g))
  ]

  Entered-Ordered :
      {i : ℕ} {p q : Pool T E}
      → get_elem? p.workers i ≡ some looping
      → Entered ops i p q
      → Ordered p
      → Ordered q
  Entered-Ordered {i} {p} g (stops why e) o = rw e (record {
    in_hand = in_hand-set p p.workers i finished looping g (λ t h. cc) o.in_hand;
    done = o.done;
  })
  Entered-Ordered {i} {p} g (waits left alive none_ready e) o = rw e (record {
    in_hand = in_hand-set p p.workers i waiting looping g (λ t h. cc) o.in_hand;
    done = o.done;
  })
  Entered-Ordered {i} {p} g (takes t rest alive taken e) o = rw e (record {
    in_hand =
        in_hand-set p p.workers i (running t) looping g
          (λ u h.
            subst (λ x. AreDone ops p.runner.completed x) (ground arith)
              ((ready_iff ops p.runner.completed t).0 taken.is_ready))
          o.in_hand;
    done = o.done;
  })

  Failed-Ordered :
      {i : ℕ} {e : E} {p q : Pool T E} (t : T)
      → get_elem? p.workers i ≡ some (running t)
      → Failed ops i e p q
      → Ordered p
      → Ordered q
  Failed-Ordered {i} {e} {p} t g (first clean eq) o = rw eq (record {
    in_hand =
        in_hand-set p (broadcast p.workers) i finished (running t)
          ((broadcast-running p.workers i t).1 g) (λ u h. cc)
          (λ j u h. o.in_hand j u ((broadcast-running p.workers j u).0 h));
    done = o.done;
  })
  Failed-Ordered {i} {e} {p} t g (later old broken eq) o = rw eq (record {
    in_hand = in_hand-set p p.workers i finished (running t) g (λ u h. cc) o.in_hand;
    done = o.done;
  })

  module _ (distinct : Distinct (map key init)) where
    pass_at-Ordered :
        (p : Pool T E) (i : ℕ) (t : T)
        → get_elem? p.workers i ≡ some (running t)
        → Account ops init p
        → Ordered p
        → Ordered (pass_at ops i t p)
    unfolding pass_at
    pass_at-Ordered p i t g a o =
        let kept = λ (u : T) (h : AreDone ops p.runner.completed u).
          AreDone-insert_key ops (key t) p.runner.completed u h in
        record {
          in_hand =
              in_hand-set (pass_at ops i t p) (broadcast p.workers) i looping (running t)
                ((broadcast-running p.workers i t).1 g) (λ u h. cc)
                (λ j u h. kept u (o.in_hand j u ((broadcast-running p.workers j u).0 h)));
          done = λ u m h. elim ((has-insert_key ops (key u) (key t) p.runner.completed).0 h) [
            | inl e ↦ kept u (
                subst (λ x. AreDone ops p.runner.completed x)
                  (sym (eq_of_key ops init u t distinct m (a.in_hand i t g) e)) (o.in_hand i t g))
            | inr old ↦ kept u (o.done u m old)
          ];
        }

    Step-Ordered : {p q : Pool T E} → Step ops p q → Account ops init p → Ordered p → Ordered q
    Step-Ordered {p} (enters i g) a o = Entered-Ordered g (enter_at-Entered ops i p) o
    Step-Ordered {p} (passes i t g) a o =
        Entered-Ordered (pass_at-looping ops i t p g) (enter_at-Entered ops i (pass_at ops i t p))
          (pass_at-Ordered p i t g a o)
    Step-Ordered {p} (fails i t e g) a o = Failed-Ordered t g (fail_at-Failed ops i e p) o

    new_pool-Ordered : (cpus : ℕ) → Ordered (new_pool cpus init)
    unfolding new_pool has
    new_pool-Ordered cpus = record {
      in_hand = λ i t h. absurd (replicate-running (suc (cpus * 2)) i t h);
      done = λ t m h. cc;
    }

    -- When the collected tasks have different keys, then whatever the workers do, and in whatever
    -- order: a task that a worker runs has all of its dependencies completed, and so has a collected task
    -- that is completed itself.
    pub Runs-Ordered : (cpus : ℕ) {p : Pool T E} → Runs ops (new_pool cpus init) p → Ordered p
    Runs-Ordered cpus here = new_pool-Ordered cpus
    Runs-Ordered cpus (next r s) =
        Step-Ordered s (Runs-Account ops init distinct cpus r) (Runs-Ordered cpus r)
