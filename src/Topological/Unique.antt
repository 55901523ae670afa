-- ===== src/Topological/Unique.antt =====
-- `uniqueDeps` of go/src/dropbox/build_tools/svcctl/topological/runner.go.
use mathlib.Core.List.{map-append}
use mathlib.Core.List.Memᴰ
use dbx_build_tools.Base.{
  ℕ, zero, suc, ◌+◌, ◌≤◌, ◌≡◌, refl, sym, subst, ◌⊎◌, inl, inr, Bool, true, false, some, List, [],
  ◌∷◌, ◌++◌, map, Memᴰ, Memᴰ-cons, Memᴰ-append, not-Memᴰ-nil, ◌∙◌, ap, List-cases, Bool-cases, Str,
  has, has-append, occ, occ-append, has-occ, str_eq_iff, str_eq_refl, Distinct, length,
  length-append, if◌then◌else◌, arith,
}
use dbx_build_tools.Topological.Task.{
  TaskOps, Walk, visit, unique_loop, unique_deps, Reaches, root, step,
}

module _ {T : Type 0} (ops : TaskOps T) where
  open ops use {key, dependents}

  abbrev pub keys : List T → List Str
  keys ts = map key ts

  -- What the collected list promises: every key once, the roots, and with a task its dependencies;
  -- and nothing that is not reachable.
  pub record IsUniqueDeps (tasks deps : List T) : Type 0 where
    pub distinct : Distinct (keys deps)
    pub roots : (t : T) → Memᴰ t tasks → has (key t) (keys deps) ≡ true
    pub closed : (t d : T) → Memᴰ t deps → Memᴰ d (dependents t) → has (key d) (keys deps) ≡ true
    pub reached : (t : T) → Memᴰ t deps → Reaches ops tasks t

  record Inv (tasks : List T) (w : Walk T) : Type 0 where
    same : (k : Str) → has k w.seen ≡ has k (keys w.deps)
    distinct : Distinct (keys w.deps)
    roots : (t : T) → Memᴰ t tasks → (has (key t) w.seen ≡ true) ⊎ Memᴰ t w.queue
    closed :
        (t d : T)
        → Memᴰ t w.deps
        → Memᴰ d (dependents t)
        → (has (key d) w.seen ≡ true) ⊎ Memᴰ d w.queue
    reached : (t : T) → Memᴰ t w.deps → Reaches ops tasks t
    queued : (t : T) → Memᴰ t w.queue → Reaches ops tasks t

  -- What was seen or queued before a round is so after it.
  module _ (w : Walk T) (t : T) (rest : List T) (e : w.queue ≡ t ∷ rest) where
    still_queued :
        (d : T)
        → has (key t) w.seen ≡ true
        → (has (key d) w.seen ≡ true) ⊎ Memᴰ d w.queue
        → (has (key d) w.seen ≡ true) ⊎ Memᴰ d rest
    still_queued d s (inl old) = inl old
    still_queued d s (inr m) = elim ((Memᴰ-cons d t rest).0 (subst (Memᴰ d) e m)) [
      | inl same ↦ inl (subst (λ x. has (key x) w.seen ≡ true) (sym same) s)
      | inr later ↦ inr later
    ]

    now_seen :
        (d : T)
        → (has (key d) w.seen ≡ true) ⊎ Memᴰ d w.queue
        → (has (key d) (key t ∷ w.seen) ≡ true) ⊎ Memᴰ d (rest ++ dependents t)
    unfolding has
    now_seen d (inl old) = inl (ground arith)
    now_seen d (inr m) = elim ((Memᴰ-cons d t rest).0 (subst (Memᴰ d) e m)) [
      | inl same ↦ inl (ground (arith, str_eq_iff (key d) (key t)))
      | inr later ↦ inr ((Memᴰ-append d rest (dependents t)).1 (inl later))
    ]

  keys-snoc : (deps : List T) (t : T) → keys (deps ++ t ∷ []) ≡ keys deps ++ key t ∷ []
  keys-snoc deps t = map-append key deps (t ∷ [])

  Inv-skip :
      (tasks : List T) (w : Walk T) (t : T) (rest : List T)
      → w.queue ≡ t ∷ rest
      → has (key t) w.seen ≡ true
      → Inv tasks w
      → Inv tasks (record w { queue = rest })
  Inv-skip tasks w t rest e s h = record {
    same = h.same;
    distinct = h.distinct;
    roots = λ r m. still_queued w t rest e r s (h.roots r m);
    closed = λ x d m n. still_queued w t rest e d s (h.closed x d m n);
    reached = h.reached;
    queued = λ x m. h.queued x (subst (Memᴰ x) (sym e) (Memᴰ.tail m));
  }

  Inv-take :
      (tasks : List T) (w : Walk T) (t : T) (rest : List T)
      → w.queue ≡ t ∷ rest
      → has (key t) w.seen ≡ false
      → Inv tasks w
      → Inv tasks (record w {
        seen = key t ∷ w.seen;
        deps = w.deps ++ t ∷ [];
        queue = rest ++ dependents t;
      })
  unfolding has occ
  Inv-take tasks w t rest e s h =
      let now = h.queued t (subst (Memᴰ t) (sym e) (Memᴰ.head refl)) in
      record {
        same = λ k. rw keys-snoc (
            ground
              (arith, h.same k, has-append k (keys w.deps) (key t ∷ []), str_eq_iff k (key t)));
        distinct = λ k. rw keys-snoc (
            ground (
              arith,
              h.distinct k,
              h.same k,
              occ-append k (keys w.deps) (key t ∷ []),
              has-occ k (keys w.deps),
              str_eq_iff k (key t),
            ));
        roots = λ r m. now_seen w t rest e r (h.roots r m);
        closed = λ x d m n. elim ((Memᴰ-append x w.deps (t ∷ [])).0 m) [
          | inl old ↦ now_seen w t rest e d (h.closed x d old n)
          | inr new ↦ inr (
              (Memᴰ-append d rest (dependents t)).1
                (inr (subst (λ y. Memᴰ d (dependents y)) (Memᴰ.eq_of_singleton new) n)))
        ];
        reached = λ x m. elim ((Memᴰ-append x w.deps (t ∷ [])).0 m) [
          | inl old ↦ h.reached x old
          | inr new ↦ subst (Reaches ops tasks) (sym (Memᴰ.eq_of_singleton new)) now
        ];
        queued = λ x m. elim ((Memᴰ-append x rest (dependents t)).0 m) [
          | inl old ↦ h.queued x (subst (Memᴰ x) (sym e) (Memᴰ.tail old))
          | inr new ↦ step now new
        ];
      }

  Inv-visit :
      (tasks : List T) (w : Walk T) (t : T) (rest : List T)
      → w.queue ≡ t ∷ rest
      → Inv tasks w
      → Inv tasks (visit ops t (record w { queue = rest }))
  unfolding visit
  Inv-visit tasks w t rest e h = elim (Bool-cases (has (key t) w.seen)) [
    | inl s ↦ rw s (Inv-skip tasks w t rest e s h)
    | inr s ↦ rw s (Inv-take tasks w t rest e s h)
  ]

  Inv-start : (tasks : List T) → Inv tasks (record { seen = []; deps = []; queue = tasks })
  unfolding has occ
  Inv-start tasks = record {
    same = λ k. refl;
    distinct = λ k. omega arith;
    roots = λ t m. inr m;
    closed = λ t d m n. absurd (not-Memᴰ-nil m);
    reached = λ t m. absurd (not-Memᴰ-nil m);
    queued = λ t m. root m;
  }

  Inv-end : (tasks : List T) (w : Walk T) → w.queue ≡ [] → Inv tasks w → IsUniqueDeps tasks w.deps
  Inv-end tasks w e h = record {
    distinct = h.distinct;
    roots = λ t m. settled t (h.roots t m);
    closed = λ t d m n. settled d (h.closed t d m n);
    reached = h.reached;
  }
    where
      settled :
          (d : T) → (has (key d) w.seen ≡ true) ⊎ Memᴰ d w.queue → has (key d) (keys w.deps) ≡ true
      settled d (inl s) = sym (h.same (key d)) ∙ s
      settled d (inr m) = absurd (not-Memᴰ-nil (subst (Memᴰ d) e m))

  unique_loop-IsUniqueDeps :
      (tasks : List T) (fuel : ℕ) (w : Walk T) (deps : List T)
      → Inv tasks w
      → unique_loop ops fuel w ≡ some deps
      → IsUniqueDeps tasks deps
  unfolding unique_loop
  unique_loop-IsUniqueDeps tasks zero w deps h r = elim (List-cases w.queue) [
    | inl e ↦ subst (IsUniqueDeps tasks) (ground arith) (Inv-end tasks w e h)
    | inr (t, rest, e) ↦ absurd (ground arith)
  ]
  unique_loop-IsUniqueDeps tasks (suc fuel) w deps h r = elim (List-cases w.queue) [
    | inl e ↦ subst (IsUniqueDeps tasks) (ground arith) (Inv-end tasks w e h)
    | inr (t, rest, e) ↦
        unique_loop-IsUniqueDeps tasks fuel (visit ops t (record w { queue = rest })) deps
          (Inv-visit tasks w t rest e h) (rw (e, unique_loop) at r)
  ]

  -- The edges that a walk over `known` has still to follow.
  unfoldable pub unfollowed : List Str → List T → ℕ
  unfollowed seen [] = 0
  unfollowed seen (t ∷ known) =
      (if has (key t) seen then 0 else length (dependents t)) + unfollowed seen known

  unfollowed-cons-le :
      (k : Str) (seen : List Str) (known : List T)
      → unfollowed (k ∷ seen) known ≤ unfollowed seen known
  unfolding unfollowed has
  unfollowed-cons-le k seen [] = omega arith
  unfollowed-cons-le k seen (t ∷ known) = ground (arith, unfollowed-cons-le k seen known)

  unfollowed-visit :
      (seen : List Str) (known : List T) (t : T)
      → Memᴰ t known
      → has (key t) seen ≡ false
      → unfollowed (key t ∷ seen) known + length (dependents t) ≤ unfollowed seen known
  unfolding unfollowed has
  unfollowed-visit seen [] t m s = absurd (not-Memᴰ-nil m)
  unfollowed-visit seen (x ∷ known) t m s = elim ((Memᴰ-cons t x known).0 m) [
    | inl e ↦ rw (← e) (ground (arith, unfollowed-cons-le (key t) seen known, str_eq_refl (key t)))
    | inr later ↦ ground (arith, unfollowed-visit seen known t later s)
  ]

  -- A finite set of tasks that holds its members' dependencies.
  abbrev pub IsClosed : List T → Type 0
  IsClosed known = (t d : T) → Memᴰ t known → Memᴰ d (dependents t) → Memᴰ d known

  module _ (known : List T) (closed : IsClosed known) where
    visit-inside :
        (w : Walk T) (t : T) (rest : List T)
        → w.queue ≡ t ∷ rest
        → ((x : T) → Memᴰ x w.queue → Memᴰ x known)
        → (x : T) → Memᴰ x (visit ops t (record w { queue = rest })).queue
        → Memᴰ x known
    unfolding visit
    visit-inside w t rest e inside x m = elim (Bool-cases (has (key t) w.seen)) [
      | inl s ↦ earlier x (subst (λ b. Memᴰ x (queue_if b)) s m)
      | inr s ↦
          elim ((Memᴰ-append x rest (dependents t)).0 (subst (λ b. Memᴰ x (queue_if b)) s m)) [
            | inl old ↦ earlier x old
            | inr new ↦ closed t x (inside t (subst (Memᴰ t) (sym e) (Memᴰ.head refl))) new
          ]
    ]
      where
        earlier : (y : T) → Memᴰ y rest → Memᴰ y known
        earlier y n = inside y (subst (Memᴰ y) (sym e) (Memᴰ.tail n))

        queue_if : Bool → List T
        queue_if b =
            (if b then record w { queue = rest } else record w {
              seen = key t ∷ w.seen;
              deps = w.deps ++ t ∷ [];
              queue = rest ++ dependents t;
            }).queue

    visit-measure :
        (w : Walk T) (t : T) (rest : List T)
        → w.queue ≡ t ∷ rest
        → Memᴰ t known
        → (fuel : ℕ) → length w.queue + unfollowed w.seen known ≤ suc fuel
        → (let w' = visit ops t (record w { queue = rest }) in
            length w'.queue + unfollowed w'.seen known ≤ fuel)
    unfolding visit
    visit-measure w t rest e m fuel h =
        ground
          (arith, unfollowed-visit w.seen known t m, length-append rest (dependents t), ap length e)

    unique_loop_ends :
        (fuel : ℕ) (w : Walk T)
        → ((t : T) → Memᴰ t w.queue → Memᴰ t known)
        → length w.queue + unfollowed w.seen known ≤ fuel
        → (deps : List T) × (unique_loop ops fuel w ≡ some deps)
    unfolding unique_loop
    unique_loop_ends zero w inside h = elim (List-cases w.queue) [
      | inl e ↦ (w.deps, ground arith)
      | inr (t, rest, e) ↦ absurd (ground arith)
    ]
    unique_loop_ends (suc fuel) w inside h = elim (List-cases w.queue) [
      | inl e ↦ (w.deps, ground arith)
      | inr (t, rest, e) ↦
          let (deps, r) =
            unique_loop_ends fuel (visit ops t (record w { queue = rest }))
              (visit-inside w t rest e inside)
              (visit-measure w t rest e (inside t (subst (Memᴰ t) (sym e) (Memᴰ.head refl))) fuel
                h) in
          (deps, ground arith)
    ]

    -- With one unit of fuel for each given task and for each dependency edge, `uniqueDeps` returns;
    -- the list it returns has every key once, holds the given tasks and the dependencies of its
    -- members by key, and only tasks that are reachable from the given ones.
    pub unique_deps_correct :
        (fuel : ℕ) (tasks : List T)
        → ((t : T) → Memᴰ t tasks → Memᴰ t known)
        → length tasks + unfollowed [] known ≤ fuel
        → (deps : List T) × (unique_deps ops fuel tasks ≡ some deps) × IsUniqueDeps tasks deps
    unfolding unique_deps
    unique_deps_correct fuel tasks inside h =
        let (deps, r) =
          unique_loop_ends fuel (record { seen = []; deps = []; queue = tasks }) inside h in
        (deps, r, unique_loop-IsUniqueDeps tasks fuel _ deps (Inv-start tasks) r)
