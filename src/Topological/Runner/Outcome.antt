-- ===== src/Topological/Runner/Outcome.antt =====
-- The error that `Run` of go/src/dropbox/build_tools/svcctl/topological/runner.go returns.
use dbx_build_tools.Base.{
  ℕ, suc, ◌*◌, ◌≤◌, ◌<◌, ◌≡◌, refl, sym, ap, ◌∙◌, ◌↔◌, inl, inr, true, none, some, List, [], ◌∷◌,
  map, Memᴰ, Option-cases, Str, has, has-occ, occ, str_eq_refl, Distinct, get_elem?, length,
  length-set, length-replicate, arith,
}
use dbx_build_tools.Topological.Task.{TaskOps}
use dbx_build_tools.Topological.Runner.{
  Worker, looping, running, waiting, finished, Pool, broadcast, pass_at, new_pool, Step, enters,
  passes, fails, Runs, here, next,
}
use dbx_build_tools.Topological.Runner.Workers.{
  Entered, stops, waits, takes, enter_at-Entered, Failed, first, later, fail_at-Failed,
  length-broadcast, pass_at-looping,
}
use dbx_build_tools.Topological.Runner.Account.{
  total, Account, Runs-Account, Entered-total, Failed-total, pass_at-total,
}
use dbx_build_tools.Topological.Runner.Order.{occ-mem}
use dbx_build_tools.Topological.Runner.Waiting.{Runs-Attentive}
use dbx_build_tools.Topological.Runner.Finish.{Returned, held-Idle}

module _ {T : Type 0} where
  first_worker : (ws : List (Worker T)) → 0 < length ws → (w : Worker T) × (get_elem? ws 0 ≡ some w)
  first_worker [] h = absurd (omega arith)
  first_worker (w ∷ ws) h = (w, refl)

module _ {T E : Type 0} (ops : TaskOps T) where
  pub Entered-length :
      {i : ℕ} {p q : Pool T E} → Entered ops i p q → length q.workers ≡ length p.workers
  Entered-length {i} {p} (stops why e) = rw e (length-set p.workers i finished)
  Entered-length {i} {p} (waits a b c e) = rw e (length-set p.workers i waiting)
  Entered-length {i} {p} (takes t rest a b e) = rw e (length-set p.workers i (running t))

  pub pass_at-length :
      (i : ℕ) (t : T) (p : Pool T E) → length (pass_at ops i t p).workers ≡ length p.workers
  unfolding pass_at
  pass_at-length i t p = length-set (broadcast p.workers) i looping ∙ length-broadcast p.workers

  pub Failed-length :
      {i : ℕ} {e : E} {p q : Pool T E} → Failed ops i e p q → length q.workers ≡ length p.workers
  Failed-length {i} {e} {p} (first clean eq) =
      rw eq (length-set (broadcast p.workers) i finished ∙ length-broadcast p.workers)
  Failed-length {i} {e} {p} (later old broken eq) = rw eq (length-set p.workers i finished)

  pub Step-length : {p q : Pool T E} → Step ops p q → length q.workers ≡ length p.workers
  Step-length {p} (enters i g) = Entered-length (enter_at-Entered ops i p)
  Step-length {p} (passes i t g) =
      Entered-length (enter_at-Entered ops i (pass_at ops i t p)) ∙ pass_at-length i t p
  Step-length {p} (fails i t e g) = Failed-length (fail_at-Failed ops i e p)

  pub Runs-length :
      (cpus : ℕ) (init : List T) {p : Pool T E}
      → Runs ops (new_pool cpus init) p
      → length p.workers ≡ suc (cpus * 2)
  unfolding new_pool
  Runs-length cpus init here = length-replicate (suc (cpus * 2)) looping
  Runs-length cpus init (next r s) = Step-length s ∙ Runs-length cpus init r

module _ {T E : Type 0} (ops : TaskOps T) (init : List T)
    (distinct : Distinct (map ops.key init)) where
  open ops use {key}

  -- After an error some task stands nowhere: it is the one that failed.
  Lost : Pool T E → Type 0
  Lost p = (e : E) → p.runner.err ≡ some e → (t : T) × Memᴰ t init × (total ops init (key t) p ≡ 0)

  Lost-of_le :
      (p q : Pool T E)
      → ((k : Str) → total ops init k q ≤ total ops init k p)
      → q.runner.err ≡ p.runner.err
      → Lost p
      → Lost q
  unfolding Lost
  Lost-of_le p q fewer same h e f =
      let (t, m, z) = h e (sym same ∙ f) in (t, m, omega (arith, fewer (key t)))

  Entered-err : {i : ℕ} {p q : Pool T E} → Entered ops i p q → q.runner.err ≡ p.runner.err
  Entered-err (stops why e) = rw e
  Entered-err (waits a b c e) = rw e
  Entered-err (takes t rest a b e) = rw e

  pass_at-err : (i : ℕ) (t : T) (p : Pool T E) → (pass_at ops i t p).runner.err ≡ p.runner.err
  unfolding pass_at
  pass_at-err i t p = refl

  Failed-Lost :
      {i : ℕ} {e : E} {p q : Pool T E} (t : T)
      → get_elem? p.workers i ≡ some (running t)
      → Account ops init p
      → Failed ops i e p q
      → Lost p
      → Lost q
  unfolding Lost
  Failed-Lost {i} {e} {p} {q} t g a (first clean eq) h = λ x y.
      let whole = Failed-total ops init {p = p} {q = q} t (key t) g (first clean eq) in
      (
        t,
        a.in_hand i t g,
        ground (arith, whole, a.bounded (key t), distinct (key t), str_eq_refl (key t)),
      )
  Failed-Lost {i} {e} {p} {q} t g a (later old broken eq) h =
      Lost-of_le p q
        (λ k. omega (arith, Failed-total ops init {p = p} {q = q} t k g (later old broken eq)))
        (rw eq) h

  Step-Lost : {p q : Pool T E} → Account ops init p → Step ops p q → Lost p → Lost q
  Step-Lost {p} a (enters i g) h =
      let s = enter_at-Entered ops i p in
      Lost-of_le p _ (λ k. omega (arith, Entered-total ops init k g s)) (Entered-err s) h
  Step-Lost {p} a (passes i t g) h =
      let s = enter_at-Entered ops i (pass_at ops i t p) in
      let g' = pass_at-looping ops i t p g in
      Lost-of_le p _
        (λ k.
          omega (arith, Entered-total ops init k g' s, pass_at-total ops init distinct p i t k g a))
        (Entered-err s ∙ pass_at-err i t p) h
  Step-Lost {p} a (fails i t e g) h = Failed-Lost t g a (fail_at-Failed ops i e p) h

  Runs-Lost : (cpus : ℕ) {p : Pool T E} → Runs ops (new_pool cpus init) p → Lost p
  unfolding Lost new_pool
  Runs-Lost cpus here = λ e h. cc
  Runs-Lost cpus (next r s) = Step-Lost (Runs-Account ops init distinct cpus r) s (Runs-Lost cpus r)

  all_completed-of_clean :
      (cpus : ℕ) {p : Pool T E}
      → Runs ops (new_pool cpus init) p
      → Returned ops init distinct p
      → p.runner.err ≡ none
      → (t : T) → Memᴰ t init
      → has (key t) p.runner.completed ≡ true
  unfolding occ
  all_completed-of_clean cpus {p} r done clean t m =
      let a = Runs-Account ops init distinct cpus r in
      let (w, g) = first_worker p.workers (omega (arith, Runs-length ops cpus init r)) in
      elim ((Runs-Attentive ops init distinct cpus r).over 0 (g ∙ ap some (done 0 w g))) [
        | inl empty ↦
            let none_held = held-Idle ops (key t) p.workers (λ i v h. inr (done i v h)) in
            let none_left = ap (λ ts. occ (key t) (map key ts)) empty in
            (has-occ (key t) p.runner.completed).1
              (omega (arith, a.exact clean (key t), none_held, none_left, occ-mem ops init t m))
        | inr dead ↦ absurd (a.die_iff.0 dead clean)
      ]

  -- When the collected tasks have different keys and all workers have returned, `Run` returns no
  -- error exactly if every collected task is completed.
  pub run_outcome :
      (cpus : ℕ) {p : Pool T E}
      → Runs ops (new_pool cpus init) p
      → Returned ops init distinct p
      → (p.runner.err ≡ none) ↔ ((t : T) → Memᴰ t init → has (key t) p.runner.completed ≡ true)
  unfolding Lost
  run_outcome cpus {p} r done = (
    all_completed-of_clean cpus r done,
    λ all. elim (Option-cases p.runner.err) [
      | inl e ↦ e
      | inr (x, e) ↦
          let (t, m, z) = Runs-Lost cpus r x e in
          absurd (ground (arith, z, (has-occ (key t) p.runner.completed).0 (all t m)))
    ],
  )
