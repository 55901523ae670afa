-- ===== src/Topological/Reversed/Edges.antt =====
-- The maps of `NewReversedRunner` in
-- go/src/dropbox/build_tools/svcctl/topological/runner.go.
use mathlib.Core.List.{filter_map}
use mathlib.Core.Option
use dbx_build_tools.Base.{
  ℕ, zero, suc, ◌+◌, ◌≤◌, ◌≡◌, refl, sym, ap, subst, ◌∙◌, ◌↔◌, ◌⊎◌, inl, inr, true, false, Option,
  none, some, List, [], ◌∷◌, ◌++◌, map, Memᴰ, Memᴰ-cons, Memᴰ-append, not-Memᴰ-nil, Bool-cases,
  List-cases, Str, has, has-occ, occ, str_eq, str_eq_iff, lookup, lookup-insert, Distinct, length,
  if◌then◌else◌, arith,
}
use dbx_build_tools.Topological.Task.{TaskOps, Walk, visit, unique_loop, unique_deps}
use dbx_build_tools.Topological.Unique.{IsUniqueDeps, IsClosed, unfollowed, unique_deps_correct}
use dbx_build_tools.Topological.Reversed.{
  Turning, Turned, slice_at, append_at, add_edges, turn, turn_loop, turn_all, by_key, turned_slots,
  turned_ops,
}

module _ {T : Type 0} where
  slice_at-append_at :
      (k j : Str) (t : T) (m : List (Str × List T))
      → slice_at j (append_at k t m) ≡ (if str_eq j k then slice_at k m ++ t ∷ [] else slice_at j m)
  unfolding slice_at append_at
  slice_at-append_at k j t m = ground (arith, lookup-insert k j (slice_at k m ++ t ∷ []) m)

module _ {T : Type 0} (ops : TaskOps T) where
  open ops use {key, dependents}

  mem-append_at :
      (k j : Str) (t x : T) (m : List (Str × List T))
      → Memᴰ x (slice_at j (append_at k t m)) ↔ (Memᴰ x (slice_at j m) ⊎ (x ≡ t) × (j ≡ k))
  mem-append_at k j t x m = elim (Bool-cases (str_eq j k)) [
    | inl e ↦
        let same = (str_eq_iff j k).0 e in
        rw (slice_at-append_at k j t m, e)
          (ground
            (arith, Memᴰ-append x (slice_at k m) (t ∷ []), Memᴰ-cons x t [], not-Memᴰ-nil {a = x}))
    | inr e ↦ rw (slice_at-append_at k j t m, e) (ground (arith, str_eq_iff j k))
  ]

  mem-add_edges :
      (k : Str) (t x : T) (ds : List T) (m : List (Str × List T))
      → Memᴰ x (slice_at k (add_edges ops t ds m))
        ↔ (Memᴰ x (slice_at k m) ⊎ (x ≡ t) × (has k (map key ds) ≡ true))
  unfolding add_edges has
  mem-add_edges k t x [] m = ground arith
  mem-add_edges k t x (d ∷ ds) m = ground (
    arith,
    mem-add_edges k t x ds (append_at (key d) t m),
    mem-append_at (key d) k t x m,
    str_eq_iff k (key d),
  )

  abbrev walk_of : Turning T → Walk T
  walk_of w = record { seen = w.seen; deps = w.all_tasks; queue = w.queue }

  walk_of-turn : (t : T) (w : Turning T) → visit ops t (walk_of w) ≡ walk_of (turn ops t w)
  unfolding visit turn
  walk_of-turn t w = ground arith

  -- The walk is that of `uniqueDeps`.
  turn_loop_unique :
      (fuel : ℕ) (w : Turning T)
      → Option.map (λ (r : Turned T). r.all_tasks) (turn_loop ops fuel w)
        ≡ unique_loop ops fuel (walk_of w)
  unfolding turn_loop unique_loop
  turn_loop_unique zero w = ground arith
  turn_loop_unique (suc fuel) w = elim (List-cases w.queue) [
    | inl e ↦ ground arith
    | inr (t, rest, e) ↦
        let step = turn_loop_unique fuel (turn ops t (record w { queue = rest })) in
        let same = walk_of-turn t (record w { queue = rest }) in
        rw (e, turn_loop) (step ∙ ap (unique_loop ops fuel) (sym same))
  ]

  -- `reversedDeps` holds, under each key, the visited tasks that depend on it.
  abbrev HasEdges : List T → List (Str × List T) → Type 0
  HasEdges all m =
      (k : Str) (x : T)
      → Memᴰ x (slice_at k m) ↔ (Memᴰ x all × (has k (map key (dependents x)) ≡ true))

  HasEdges-start : HasEdges [] []
  unfolding slice_at lookup
  HasEdges-start k x = (λ m. absurd (not-Memᴰ-nil m), λ h. absurd (not-Memᴰ-nil h.0))

  HasEdges-turn :
      (t : T) (w : Turning T)
      → HasEdges w.all_tasks w.reversed_deps
      → HasEdges (turn ops t w).all_tasks (turn ops t w).reversed_deps
  unfolding turn
  HasEdges-turn t w h k x = elim (Bool-cases (has (key t) w.seen)) [
    | inl e ↦ rw e (h k x)
    | inr e ↦ rw e (
        ground (
          arith,
          h k x,
          mem-add_edges k t x (dependents t) w.reversed_deps,
          Memᴰ-append x w.all_tasks (t ∷ []),
          Memᴰ-cons x t [],
          not-Memᴰ-nil {a = x},
        ))
  ]

  turn_loop-HasEdges :
      (fuel : ℕ) (w : Turning T) (r : Turned T)
      → HasEdges w.all_tasks w.reversed_deps
      → turn_loop ops fuel w ≡ some r
      → HasEdges r.all_tasks r.reversed_deps
  unfolding turn_loop
  turn_loop-HasEdges zero w r h e = elim (List-cases w.queue) [
    | inl q ↦ subst (λ (y : Turned T). HasEdges y.all_tasks y.reversed_deps) (ground arith) h
    | inr (t, rest, q) ↦ absurd (ground arith)
  ]
  turn_loop-HasEdges (suc fuel) w r h e = elim (List-cases w.queue) [
    | inl q ↦ subst (λ (y : Turned T). HasEdges y.all_tasks y.reversed_deps) (ground arith) h
    | inr (t, rest, q) ↦
        turn_loop-HasEdges fuel (turn ops t (record w { queue = rest })) r
          (HasEdges-turn t (record w { queue = rest }) h) (rw (q, turn_loop) at e)
  ]

  by_key-none : (k : Str) (all : List T) → has k (map key all) ≡ false → by_key ops k all ≡ none
  unfolding by_key has
  by_key-none k [] h = refl
  by_key-none k (x ∷ all) h = ground (arith, by_key-none k all)

  by_key-mem :
      (all : List T) (t : T) → Distinct (map key all) → Memᴰ t all → by_key ops (key t) all ≡ some t
  unfolding by_key occ
  by_key-mem [] t d m = absurd (not-Memᴰ-nil m)
  by_key-mem (x ∷ all) t d m = elim ((Memᴰ-cons t x all).0 m) [
    | inl e ↦ ground (
      arith,
      by_key-none (key t) all,
      d (key t),
      has-occ (key t) (map key all),
      str_eq_iff (key t) (key x),
      ap key e,
    )
    | inr n ↦ rw (by_key-mem all t (λ k. omega (arith, d k)) n)
  ]

  -- Looking a visited task up by its key gives that task.
  slots-eq :
      (all ts : List T)
      → Distinct (map key all)
      → ((t : T) → Memᴰ t ts → Memᴰ t all)
      → map (λ dep. by_key ops (key dep) all) ts ≡ map some ts
  slots-eq all [] d inside = refl
  slots-eq all (t ∷ ts) d inside = cc (
    by_key-mem all t d (inside t (Memᴰ.head refl)),
    slots-eq all ts d (λ x m. inside x (Memᴰ.tail m)),
  )

  filter_map-some : (ts : List T) → filter_map (λ (slot : Option T). slot) (map some ts) ≡ ts
  unfolding filter_map
  filter_map-some [] = refl
  filter_map-some (t ∷ ts) = ap (λ (l : List T). t ∷ l) (filter_map-some ts)

  not-mem-map-some : (ts : List T) → ¬ Memᴰ none (map some ts)
  not-mem-map-some [] m = not-Memᴰ-nil m
  not-mem-map-some (t ∷ ts) m = elim ((Memᴰ-cons none (some t) (map some ts)).0 m) [
    | inl e ↦ cc
    | inr n ↦ not-mem-map-some ts n
  ]

  -- What the reversed runner is given: the tasks that `uniqueDeps` collects; no nil pointer among
  -- the turned dependencies; and a task depends on those tasks that depended on it.
  pub record IsTurned (tasks : List T) (r : Turned T) : Type 0 where
    pub collected : IsUniqueDeps ops tasks r.all_tasks
    pub no_nil : (t : T) → ¬ Memᴰ none (turned_slots ops r t)
    pub edges :
        (t d : T)
        → Memᴰ d ((turned_ops ops r).dependents t)
          ↔ (Memᴰ d r.all_tasks × (has (key t) (map key (dependents d)) ≡ true))

  IsTurned-of_edges :
      (tasks : List T) (r : Turned T)
      → IsUniqueDeps ops tasks r.all_tasks
      → HasEdges r.all_tasks r.reversed_deps
      → IsTurned tasks r
  unfolding turned_slots turned_ops
  IsTurned-of_edges tasks r u h =
      let slots = λ (t : T).
        slots-eq r.all_tasks (slice_at (key t) r.reversed_deps) u.distinct
          (λ x m. ((h (key t) x).0 m).0) in
      record {
        collected = u;
        no_nil = λ t m. not-mem-map-some _ (subst (Memᴰ none) (slots t) m);
        edges = λ t d.
            rw (slots t) (rw (filter_map-some (slice_at (key t) r.reversed_deps)) (h (key t) d));
      }

  module _ (known : List T) (closed : IsClosed ops known) where
    -- With the fuel of `uniqueDeps`, the walk of `NewReversedRunner` returns, and what it hands to
    -- `NewRunner` are the same tasks with every dependency turned round, and no nil pointer.
    pub turn_all_correct :
        (fuel : ℕ) (tasks : List T)
        → ((t : T) → Memᴰ t tasks → Memᴰ t known)
        → length tasks + unfollowed ops [] known ≤ fuel
        → (r : Turned T) × (turn_all ops fuel tasks ≡ some r) × IsTurned tasks r
    unfolding turn_all unique_deps
    turn_all_correct fuel tasks inside h =
        let w : Turning T = record {
          seen = [];
          all_tasks = [];
          queue = tasks;
          reversed_deps = [];
        } in
        let (deps, e, u) = unique_deps_correct ops known closed fuel tasks inside h in
        let (r, f, g) = map-eq-some (turn_loop ops fuel w) deps (turn_loop_unique fuel w ∙ e) in
        (
          r,
          f,
          IsTurned-of_edges tasks r (subst (IsUniqueDeps ops tasks) (sym g) u)
              (turn_loop-HasEdges fuel w r HasEdges-start f),
        )
      where
        map-eq-some :
            (o : Option (Turned T)) (deps : List T)
            → Option.map (λ (r : Turned T). r.all_tasks) o ≡ some deps
            → (r : Turned T) × (o ≡ some r) × (r.all_tasks ≡ deps)
        map-eq-some none deps h = absurd (cc)
        map-eq-some (some r) deps h = (r, refl, ground arith)
