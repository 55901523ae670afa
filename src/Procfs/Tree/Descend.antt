-- ===== src/Procfs/Tree/Descend.antt =====
-- What the process trees of go/src/dropbox/procfs/stat.go hold: the descendants of their roots.
use dbx_build_tools.Base.{
  ℕ, zero, suc, ◌+◌, ◌≤◌, ◌==◌, ==_iff, ◌≡◌, refl, ap, subst, ◌↔◌, inl, inr, Bool, true, false,
  ◌||◌, some, List, [], ◌∷◌, has_int, DistinctInts, length, Bool-cases, List-cases, arith,
}
use dbx_build_tools.Procfs.Tree.{ProcStat, child_pid_map, children_of, TreeWalk, collect, walk_loop}
use dbx_build_tools.Procfs.Tree.Reached.{
  child_of, has-child_pid_map, unseen, Collected, collect-Collected,
}

-- A process is a root, or the child of a process that descends from one.
pub data Descends (stats : List ProcStat) (is_root : ℕ → Bool) : ℕ → Type 0 where
  root : {k : ℕ} → is_root k ≡ true → Descends stats is_root k
  child :
      {p c : ℕ} → Descends stats is_root p → child_of stats p c ≡ true → Descends stats is_root c

module _ (stats : List ProcStat) (is_root : ℕ → Bool) where
  -- The set holds the roots and descends from them; what lacks a child is yet to be processed.
  pub record Inv (w : TreeWalk) : Type 0 where
    pub distinct : DistinctInts w.pid_set
    pub roots : (k : ℕ) → is_root k ≡ true → has_int k w.pid_set ≡ true
    pub closed :
        (p c : ℕ)
        → has_int p w.pid_set ≡ true
        → child_of stats p c ≡ true
        → (has_int c w.pid_set || has_int p w.to_process) ≡ true
    pub reached : (k : ℕ) → has_int k w.pid_set ≡ true → Descends stats is_root k
    pub queued : (k : ℕ) → has_int k w.to_process ≡ true → has_int k w.pid_set ≡ true

  -- The walk has ended with a list of the descendants, each one once.
  abbrev pub AreDescendants : List ℕ → Type 0
  AreDescendants pids =
      DistinctInts pids × ((k : ℕ) → (has_int k pids ≡ true) ↔ Descends stats is_root k)

  descendant-has :
      (w : TreeWalk)
      → Inv w
      → w.to_process ≡ []
      → (k : ℕ) → Descends stats is_root k
      → has_int k w.pid_set ≡ true
  unfolding has_int
  descendant-has w inv e k (root h) = inv.roots k h
  descendant-has w inv e c (child {p = p} d h) =
      let known = descendant-has w inv e p d in
      let done : has_int p w.to_process ≡ false = rw (e) refl in
      ground (arith, inv.closed p c known h, done)

  collect-Inv :
      (w : TreeWalk) (pid : ℕ) (rest : List ℕ)
      → Inv w
      → w.to_process ≡ pid ∷ rest
      → Inv (collect (children_of pid (child_pid_map stats)) (record w { to_process = rest }))
  unfolding has_int
  collect-Inv w pid rest inv e =
      let children : List ℕ = children_of pid (child_pid_map stats) in
      let w0 : TreeWalk = record w { to_process = rest } in
      let r : Collected stats children w0 (collect children w0) =
        collect-Collected stats pid children w0
          (λ c h. ground (arith, h, has-child_pid_map pid c stats)) in
      let split : (k : ℕ) → has_int k w.to_process ≡ ((k == pid) || has_int k rest) =
        λ k. rw (e) refl in
      let held : has_int pid w.pid_set ≡ true =
        inv.queued pid (ground (arith, split pid, ==_iff pid pid)) in
      record {
        distinct = r.distinct inv.distinct;
        roots = λ k h. ground (arith, r.set k, inv.roots k h);
        closed = λ p c h k. elim (Bool-cases (p == pid)) [
          | inl same ↦
              let known : child_of stats pid c ≡ true =
                subst (λ z. child_of stats z c ≡ true) ((==_iff p pid).0 same) k in
              ground (arith, r.set c, known, has-child_pid_map pid c stats)
          | inr other ↦
              ground (arith, r.set c, r.added p h, inv.closed p c, k, split p, other, r.kept p)
        ];
        reached = λ k h. elim (Bool-cases (has_int k w.pid_set)) [
          | inl old ↦ inv.reached k old
          | inr new ↦
              child (inv.reached pid held)
                (ground (arith, h, new, r.set k, has-child_pid_map pid k stats))
        ];
        queued = λ k h. ground (arith, r.set k, r.queued k h, inv.queued k, split k);
      }

  over : (w : TreeWalk) → Inv w → w.to_process ≡ [] → AreDescendants w.pid_set
  over w inv e = (inv.distinct, λ k. (inv.reached k, descendant-has w inv e k))

  pub walk_loop-descendants :
      (fuel : ℕ) (w : TreeWalk)
      → Inv w
      → unseen stats w.pid_set + length w.to_process ≤ fuel
      → (pids : List ℕ) × (walk_loop fuel (child_pid_map stats) w ≡ some pids) × AreDescendants pids
  unfolding walk_loop
  walk_loop-descendants zero w inv enough = elim (List-cases w.to_process) [
    | inl e ↦ (w.pid_set, rw (e) refl, over w inv e)
    | inr (pid, rest, e) ↦ absurd (omega (arith, enough, ap length e))
  ]
  walk_loop-descendants (suc fuel) w inv enough = elim (List-cases w.to_process) [
    | inl e ↦ (w.pid_set, rw (e) refl, over w inv e)
    | inr (pid, rest, e) ↦
        let w0 : TreeWalk = record w { to_process = rest } in
        let children : List ℕ = children_of pid (child_pid_map stats) in
        let r =
          collect-Collected stats pid children w0
            (λ c h. ground (arith, h, has-child_pid_map pid c stats)) in
        let work = r.work in
        let (pids, run, all) =
          walk_loop-descendants fuel (collect children w0) (collect-Inv w pid rest inv e)
            (omega (arith, work, enough, ap length e)) in
        (pids, rw (e) run, all)
  ]
