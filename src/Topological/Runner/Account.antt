-- ===== src/Topological/Runner/Account.antt =====
-- Where each task stands in a pool of go/src/dropbox/build_tools/svcctl/topological/runner.go: listed, in the
-- hands of a worker, or completed.
use dbx_build_tools.Base.{get_elem?-set}
use dbx_build_tools.Base.{
  ℕ, zero, suc, ◌+◌, ◌*◌, ◌≤◌, ◌==◌, ◌≡◌, refl, sym, ◌∙◌, ◌≢◌, ◌↔◌, inl, inr, true, false, none,
  some, List, [], ◌∷◌, map, Memᴰ, Bool-cases, Str, has, has-occ, occ, str_eq, str_eq_refl, set,
  get_elem?, replicate, Distinct, if◌then◌else◌, arith,
}
use dbx_build_tools.Topological.Task.{TaskOps}
use dbx_build_tools.Topological.Runner.{
  Worker, looping, running, waiting, finished, Pool, wake, broadcast, insert_key, pass_at, new_pool,
  Step, enters, passes, fails, Runs, here, next,
}
use dbx_build_tools.Topological.Runner.Workers.{
  replicate-running, pass_at-looping, Entered, stops, waits, takes, Failed, first, later,
  fail_at-Failed, enter_at-Entered, broadcast-running,
}

module _ {T : Type 0} (ops : TaskOps T) where
  open ops use {key}

  -- How many workers run the task of a key.
  abbrev pub load : Str → Worker T → ℕ
  load k looping = 0
  load k (running t) = if str_eq k (key t) then 1 else 0
  load k waiting = 0
  load k finished = 0

  unfoldable pub held : Str → List (Worker T) → ℕ
  held k [] = 0
  held k (w ∷ ws) = load k w + held k ws

  pub held-set :
      (k : Str) (ws : List (Worker T)) (i : ℕ) (w v : Worker T)
      → get_elem? ws i ≡ some v
      → held k (set ws i w) + load k v ≡ held k ws + load k w
  unfolding held
  held-set k [] i w v h = cc
  held-set k (x ∷ ws) zero w v h = ground arith
  held-set k (x ∷ ws) (suc i) w v h = omega (arith, held-set k ws i w v h)

  pub held-broadcast : (k : Str) (ws : List (Worker T)) → held k (broadcast ws) ≡ held k ws
  unfolding held broadcast wake
  held-broadcast k [] = refl
  held-broadcast k (looping ∷ ws) = omega (arith, held-broadcast k ws)
  held-broadcast k (running t ∷ ws) = omega (arith, held-broadcast k ws)
  held-broadcast k (waiting ∷ ws) = omega (arith, held-broadcast k ws)
  held-broadcast k (finished ∷ ws) = omega (arith, held-broadcast k ws)

  held-replicate : (k : Str) (n : ℕ) → held k (replicate n looping) ≡ 0
  unfolding held
  held-replicate k zero = refl
  held-replicate k (suc n) = omega (arith, held-replicate k n)

  occ-insert_key :
      (k j : Str) (s : List Str)
      → has j s ≡ false
      → occ k (insert_key j s) ≡ (if str_eq k j then 1 else 0) + occ k s
  unfolding insert_key occ
  occ-insert_key k j s h = ground arith

module _ {T : Type 0} (init : List T) where
  in_hand-set :
      (ws : List (Worker T)) (i : ℕ) (w v : Worker T)
      → get_elem? ws i ≡ some v
      → ((t : T) → w ≡ running t → Memᴰ t init)
      → ((j : ℕ) (t : T) → get_elem? ws j ≡ some (running t) → Memᴰ t init)
      → (j : ℕ) (t : T) → get_elem? (set ws i w) j ≡ some (running t)
      → Memᴰ t init
  in_hand-set ws i w v g new old j t h = elim (Bool-cases (i == j)) [
    | inl e ↦ new t (ground (arith, get_elem?-set ws i j w g))
    | inr e ↦ old j t (ground (arith, get_elem?-set ws i j w g))
  ]

module _ {T E : Type 0} (ops : TaskOps T) (init : List T) where
  open ops use {key}

  -- The number of places where the task of a key stands.
  abbrev pub total : Str → Pool T E → ℕ
  total k p = occ k (map key p.runner.tasks) + held ops k p.workers + occ k p.runner.completed

  pub record Account (p : Pool T E) : Type 0 where
    pub bounded : (k : Str) → total k p ≤ occ k (map key init)
    pub exact : p.runner.err ≡ none → (k : Str) → total k p ≡ occ k (map key init)
    pub die_iff : (p.runner.die ≡ true) ↔ (p.runner.err ≢ none)
    pub listed : (t : T) → Memᴰ t p.runner.tasks → Memᴰ t init
    pub in_hand : (i : ℕ) (t : T) → get_elem? p.workers i ≡ some (running t) → Memᴰ t init

  -- A pool that differs in the account of no key.
  Account-of_same :
      (p q : Pool T E)
      → ((k : Str) → total k q ≡ total k p)
      → q.runner.err ≡ p.runner.err
      → q.runner.die ≡ p.runner.die
      → ((t : T) → Memᴰ t q.runner.tasks → Memᴰ t init)
      → ((i : ℕ) (t : T) → get_elem? q.workers i ≡ some (running t) → Memᴰ t init)
      → Account p
      → Account q
  Account-of_same p q same err die listed in_hand a = record {
    bounded = λ k. omega (arith, same k, a.bounded k);
    exact = λ e k. omega (arith, same k, a.exact (sym err ∙ e) k);
    die_iff = rw (err, die) a.die_iff;
    listed = listed;
    in_hand = in_hand;
  }

  pub Entered-total :
      {i : ℕ} {p q : Pool T E} (k : Str)
      → get_elem? p.workers i ≡ some looping
      → Entered ops i p q
      → total k q ≡ total k p
  Entered-total {i} {p} k g (stops why e) =
      rw e (omega (arith, held-set ops k p.workers i finished looping g))
  Entered-total {i} {p} k g (waits left alive none_ready e) =
      rw e (omega (arith, held-set ops k p.workers i waiting looping g))
  Entered-total {i} {p} k g (takes t rest alive taken e) =
      rw e (omega (arith, held-set ops k p.workers i (running t) looping g, taken.keys_split k))

  pub Failed-total :
      {i : ℕ} {e : E} {p q : Pool T E} (t : T) (k : Str)
      → get_elem? p.workers i ≡ some (running t)
      → Failed ops i e p q
      → total k q + load ops k (running t) ≡ total k p
  Failed-total {i} {e} {p} t k g (first clean eq) =
      let g' = (broadcast-running p.workers i t).1 g in
      rw eq (
        omega (
          arith,
          held-set ops k (broadcast p.workers) i finished (running t) g',
          held-broadcast ops k p.workers,
        ))
  Failed-total {i} {e} {p} t k g (later old broken eq) =
      rw eq (omega (arith, held-set ops k p.workers i finished (running t) g))

  Entered-Account :
      {i : ℕ} {p q : Pool T E}
      → get_elem? p.workers i ≡ some looping
      → Entered ops i p q
      → Account p
      → Account q
  Entered-Account {i} {p} {q} g (stops why e) a = rw e (
      Account-of_same p _ (λ k. Entered-total {p = p} k g (stops why refl)) refl refl a.listed
        (in_hand-set init p.workers i finished looping g (λ t h. cc) a.in_hand) a)
  Entered-Account {i} {p} {q} g (waits some_left alive none_ready e) a = rw e (
      Account-of_same p _ (λ k. Entered-total {p = p} k g (waits some_left alive none_ready refl))
        refl refl a.listed (in_hand-set init p.workers i waiting looping g (λ t h. cc) a.in_hand) a)
  Entered-Account {i} {p} {q} g (takes t rest alive taken e) a = rw e (
      Account-of_same p _ (λ k. Entered-total {p = p} k g (takes t rest alive taken refl)) refl refl
        (λ x m. a.listed x ((taken.members x).1 (inr m)))
        (in_hand-set init p.workers i (running t) looping g
          (λ u h. a.listed u ((taken.members u).1 (inl (ground arith)))) a.in_hand)
        a)

  module _ (distinct : Distinct (map key init)) where
    -- A task in the hands of a worker is not completed.
    pub in_hand-not_completed :
        (p : Pool T E) (i : ℕ) (t : T)
        → Account p
        → get_elem? p.workers i ≡ some (running t)
        → has (key t) p.runner.completed ≡ false
    in_hand-not_completed p i t a g = elim (Bool-cases (has (key t) p.runner.completed)) [
      | inl e ↦ absurd (
          ground (
            arith,
            (has-occ (key t) p.runner.completed).0 e,
            distinct (key t),
            a.bounded (key t),
            held-set ops (key t) p.workers i looping (running t) g,
            str_eq_refl (key t),
          ))
      | inr e ↦ e
    ]

    pub pass_at-total :
        (p : Pool T E) (i : ℕ) (t : T) (k : Str)
        → get_elem? p.workers i ≡ some (running t)
        → Account p
        → total k (pass_at ops i t p) ≡ total k p
    unfolding pass_at
    pass_at-total p i t k g a = omega (
      arith,
      held-set ops k (broadcast p.workers) i looping (running t)
          ((broadcast-running p.workers i t).1 g),
      held-broadcast ops k p.workers,
      occ-insert_key ops k (key t) p.runner.completed (in_hand-not_completed p i t a g),
    )

    pass_at-Account :
        (p : Pool T E) (i : ℕ) (t : T)
        → get_elem? p.workers i ≡ some (running t)
        → Account p
        → Account (pass_at ops i t p)
    unfolding pass_at
    pass_at-Account p i t g a =
        let g' = (broadcast-running p.workers i t).1 g in
        Account-of_same p _ (λ k. pass_at-total p i t k g a) refl refl a.listed
          (in_hand-set init (broadcast p.workers) i looping (running t) g' (λ u h. cc)
            (λ j u h. a.in_hand j u ((broadcast-running p.workers j u).0 h)))
          a

  Failed-Account :
      {i : ℕ} {e : E} {p q : Pool T E} (t : T)
      → get_elem? p.workers i ≡ some (running t)
      → Failed ops i e p q
      → Account p
      → Account q
  Failed-Account {i} {e} {p} {q} t g (first clean eq) a =
      let g' = (broadcast-running p.workers i t).1 g in
      rw eq (record {
        bounded = λ k. omega (
          arith,
          a.bounded k,
          held-set ops k (broadcast p.workers) i finished (running t) g',
          held-broadcast ops k p.workers,
        );
        exact = λ h k. cc;
        die_iff = (λ _ h. cc, λ _. refl);
        listed = a.listed;
        in_hand =
            in_hand-set init (broadcast p.workers) i finished (running t) g' (λ u h. cc)
              (λ j u h. a.in_hand j u ((broadcast-running p.workers j u).0 h));
      })
  Failed-Account {i} {e} {p} {q} t g (later old broken eq) a = rw eq (record {
    bounded = λ k. omega (arith, a.bounded k, held-set ops k p.workers i finished (running t) g);
    exact = λ h k. cc;
    die_iff = a.die_iff;
    listed = a.listed;
    in_hand = in_hand-set init p.workers i finished (running t) g (λ u h. cc) a.in_hand;
  })

  module _ (distinct : Distinct (map key init)) where
    Step-Account : {p q : Pool T E} → Step ops p q → Account p → Account q
    Step-Account {p} (enters i g) a = Entered-Account g (enter_at-Entered ops i p) a
    Step-Account {p} (passes i t g) a =
        Entered-Account (pass_at-looping ops i t p g) (enter_at-Entered ops i (pass_at ops i t p))
          (pass_at-Account distinct p i t g a)
    Step-Account {p} (fails i t e g) a = Failed-Account t g (fail_at-Failed ops i e p) a

    new_pool-Account : (cpus : ℕ) → Account (new_pool cpus init)
    unfolding new_pool occ
    new_pool-Account cpus = record {
      bounded = λ k. omega (arith, held-replicate ops k (suc (cpus * 2)));
      exact = λ _ k. omega (arith, held-replicate ops k (suc (cpus * 2)));
      die_iff = (λ h. cc, λ h. absurd (h refl));
      listed = λ t m. m;
      in_hand = λ i t h. absurd (replicate-running (suc (cpus * 2)) i t h);
    }

    -- When the collected tasks have different keys, then whatever the workers do, and in whatever
    -- order, no task is lost or handed out twice: as long as no task failed, each stands in exactly
    -- one place of `ts.tasks`, the hands of one worker and `ts.completed`; after a failure in at
    -- most one.
    pub Runs-Account : (cpus : ℕ) {p : Pool T E} → Runs ops (new_pool cpus init) p → Account p
    Runs-Account cpus here = new_pool-Account cpus
    Runs-Account cpus (next r s) = Step-Account s (Runs-Account cpus r)
