-- ===== src/Procfs/Tree/Pids.antt =====
-- What `GetProcessTreePids` and `GetProcessDescendents` of go/src/dropbox/procfs/stat.go return.
use dbx_build_tools.Base.{
  ℕ, suc, ◌+◌, ◌*◌, ◌<◌, ◌≤◌, ◌==◌, ==_iff, ◌≡◌, refl, ap, ◌⊎◌, inl, inr, Bool, true, false, ◌&&◌,
  ◌||◌, some, List, [], ◌∷◌, has_int, has_int-append, occ_int, occ_int-append, has_int-occ_int,
  DistinctInts, length, length-append, Bool-cases, List-cases, arith, is_nil,
}
use dbx_build_tools.Base.Result.{ok, err}
use dbx_build_tools.Procfs.Tree.{
  ProcStat, add_pid, pids_where, process_tree_pids, process_descendents,
}
use dbx_build_tools.Procfs.Tree.Reached.{unseen}
use dbx_build_tools.Procfs.Tree.Descend.{Inv, root, AreDescendants, walk_loop-descendants}

-- Each entry counts at most once.
unseen-le-length : (stats : List ProcStat) (set : List ℕ) → unseen stats set ≤ length stats
unseen-le-length [] set = omega arith
unseen-le-length (st ∷ stats) set = ground (arith, unseen-le-length stats set)

has-add_pid :
    (pid : ℕ) (pids : List ℕ) (k : ℕ)
    → has_int k (add_pid pid pids) ≡ (has_int k pids || (k == pid))
unfolding add_pid has_int
has-add_pid pid pids k = ground (arith, has_int-append k pids (pid ∷ []), ==_iff k pid)

add_pid-distinct :
    (pid : ℕ) (pids : List ℕ)
    → DistinctInts pids
    → DistinctInts (add_pid pid pids) × (length (add_pid pid pids) ≤ suc (length pids))
unfolding add_pid has_int occ_int
add_pid-distinct pid pids d = elim (Bool-cases (has_int pid pids)) [
  | inl old ↦ rw (old) (d, omega arith)
  | inr new ↦ rw (new) (
    λ n.
        ground
          (arith, d n, occ_int-append n pids (pid ∷ []), has_int-occ_int n pids, ==_iff n pid, new),
    omega (arith, length-append pids (pid ∷ [])),
  )
]

-- The pids of the entries that pass a test.
abbrev pub is_pid_where : (ProcStat → Bool) → List ProcStat → ℕ → Bool
is_pid_where test [] k = false
is_pid_where test (st ∷ stats) k = (test st && (k == st.pid)) || is_pid_where test stats k

abbrev pub is_session_pid : ℕ → List ProcStat → ℕ → Bool
is_session_pid session_id = is_pid_where (λ st. st.session_id == session_id)

has-pids_where :
    (test : ProcStat → Bool) (stats : List ProcStat) (pids : List ℕ) (k : ℕ)
    → has_int k (pids_where test stats pids) ≡ (has_int k pids || is_pid_where test stats k)
unfolding pids_where
has-pids_where test [] pids k = ground arith
has-pids_where test (st ∷ stats) pids k = ground (
  arith,
  has-pids_where test stats (add_pid st.pid pids) k,
  has-pids_where test stats pids k,
  has-add_pid st.pid pids k,
)

pids_where-distinct :
    (test : ProcStat → Bool) (stats : List ProcStat) (pids : List ℕ)
    → DistinctInts pids
    → DistinctInts (pids_where test stats pids)
      × (length (pids_where test stats pids) ≤ length pids + length stats)
unfolding pids_where
pids_where-distinct test [] pids d = (d, omega arith)
pids_where-distinct test (st ∷ stats) pids d = elim (Bool-cases (test st)) [
  | inl e ↦
      let (d1, l1) = add_pid-distinct st.pid pids d in
      let (d2, l2) = pids_where-distinct test stats (add_pid st.pid pids) d1 in
      rw (e) (d2, omega (arith, l1, l2))
  | inr e ↦ let (d2, l2) = pids_where-distinct test stats pids d in rw (e) (d2, omega (arith, l2))
]

-- What ranging over a Go map is documented to give: each key once, in an order of its own.
pub record HasEachOnce (to_int_slice : List ℕ → List ℕ) : Type 0 where
  pub same : (set : List ℕ) (k : ℕ) → occ_int k (to_int_slice set) ≡ occ_int k set
  pub as_long : (set : List ℕ) → length (to_int_slice set) ≡ length set

module _ (to_int_slice : List ℕ → List ℕ) (once : HasEachOnce to_int_slice) where
  has-to_int_slice : (set : List ℕ) (k : ℕ) → has_int k (to_int_slice set) ≡ has_int k set
  has-to_int_slice set k =
      ground (arith, has_int-occ_int k (to_int_slice set), has_int-occ_int k set, once.same set k)

  slice-AreDescendants :
      (stats : List ProcStat) (is_root : ℕ → Bool) (pids : List ℕ)
      → AreDescendants stats is_root pids
      → AreDescendants stats is_root (to_int_slice pids)
  slice-AreDescendants stats is_root pids (d, all) =
      (λ n. ground (arith, once.same pids n, d n), λ k. rw (has-to_int_slice pids k) (all k))

  roots-Inv :
      (stats : List ProcStat) (is_root : ℕ → Bool) (set : List ℕ)
      → DistinctInts set
      → ((k : ℕ) → has_int k set ≡ is_root k)
      → Inv stats is_root (record { pid_set = set; to_process = to_int_slice set })
  roots-Inv stats is_root set d same = record {
    distinct = d;
    roots = λ k h. ground (arith, same k, h);
    closed = λ p c h k. ground (arith, h, has-to_int_slice set p);
    reached = λ k h. root (ground (arith, same k, h));
    queued = λ k h. ground (arith, h, has-to_int_slice set k);
  }

  module _ {E : Type 0} where
    -- With twice as much fuel as entries, the tree of a session ends: in ESRCH if no process is in the
    -- session, and otherwise in the pids, each one once, of the processes that descend from one that is.
    pub process_tree_pids-AreDescendants :
        (esrch : E) (fuel session_id : ℕ) (stats : List ProcStat)
        → 2 * length stats ≤ fuel
        → ((process_tree_pids to_int_slice esrch fuel session_id (ok stats) ≡ some (err esrch))
            × ((k : ℕ) → is_session_pid session_id stats k ≡ false))
          ⊎ ((pids : List ℕ) × (process_tree_pids to_int_slice esrch fuel session_id (ok stats)
                ≡ some (ok pids))
              × ((k : ℕ) × (is_session_pid session_id stats k ≡ true))
              × AreDescendants stats (is_session_pid session_id stats) pids)
    unfolding process_tree_pids has_int occ_int
    process_tree_pids-AreDescendants esrch fuel session_id stats enough =
        let set : List ℕ = pids_where (λ st. st.session_id == session_id) stats [] in
        let same = has-pids_where (λ st. st.session_id == session_id) stats [] in
        let (d, short) =
          pids_where-distinct (λ st. st.session_id == session_id) stats [] (λ n. omega arith) in
        elim (List-cases set) [
          | inl e ↦ inl (rw (e) refl, λ k. ground (arith, same k, ap (has_int k) e))
          | inr (x, xs, e) ↦ inr (
              let (pids, run, all) =
                walk_loop-descendants stats (is_session_pid session_id stats) fuel
                  (record { pid_set = set; to_process = to_int_slice set })
                  (roots-Inv stats (is_session_pid session_id stats) set d same)
                  (omega (arith, enough, short, once.as_long set, unseen-le-length stats set)) in
              let filled : is_nil set ≡ false = rw (e) refl in
              (
                to_int_slice pids,
                rw (process_tree_pids, filled, run) refl,
                (x, ground (arith, same x, ap (has_int x) e, ==_iff x x)),
                slice-AreDescendants stats (is_session_pid session_id stats) pids all,
              ))
        ]

    -- With more fuel than entries, the walk from a process ends in its own pid and those of its
    -- descendants, each one once, whether or not the process itself was read.
    pub process_descendents-AreDescendants :
        (fuel parent_pid : ℕ) (stats : List ProcStat)
        → length stats < fuel
        → (pids : List ℕ) × (process_descendents {E = E} to_int_slice fuel parent_pid (ok stats)
            ≡ some (ok pids))
          × AreDescendants stats (λ k. k == parent_pid) pids
    unfolding process_descendents has_int occ_int
    process_descendents-AreDescendants fuel parent_pid stats enough =
        let set : List ℕ = parent_pid ∷ [] in
        let (pids, run, all) =
          walk_loop-descendants stats (λ k. k == parent_pid) fuel
            (record { pid_set = set; to_process = to_int_slice set })
            (roots-Inv stats (λ k. k == parent_pid) set (λ n. ground arith) (λ k. ground arith))
            (omega (arith, enough, once.as_long set, unseen-le-length stats set)) in
        (
          to_int_slice pids,
          rw (process_descendents, run) refl,
          slice-AreDescendants stats (λ k. k == parent_pid) pids all,
        )
