-- ===== src/Procfs/Tree/Reached.antt =====
-- The walk over children of go/src/dropbox/procfs/stat.go ends, with the descendants of its roots.

use dbx_build_tools.Base.{
  ℕ, ◌+◌, ◌<◌, ◌≤◌, ◌==◌, ==_iff, ◌≡◌, subst, inl, inr, Bool, true, false, ◌&&◌, ◌||◌, List, [],
  ◌∷◌, ◌++◌, has_int, has_int-append, occ_int, occ_int-append, has_int-occ_int, DistinctInts,
  length, length-append, Bool-cases, if◌then◌else◌, arith,
}
use dbx_build_tools.Procfs.Tree.{
  ProcStat, add_child, child_loop, child_pid_map, children_of, TreeWalk, collect,
}

-- Whether a process was read whose parent is `p` and whose pid is `c`.
abbrev pub child_of : List ProcStat → ℕ → ℕ → Bool
child_of [] p c = false
child_of (st ∷ stats) p c = ((p == st.ppid) && (c == st.pid)) || child_of stats p c

has-add_child :
    (p c q d : ℕ) (m : List (ℕ × List ℕ))
    → has_int c (children_of p (add_child q d m))
      ≡ (has_int c (children_of p m) || ((p == q) && (c == d)))
unfolding children_of add_child has_int
has-add_child p c q d [] = ground (arith, ==_iff p q)
has-add_child p c q d ((k, l) ∷ m) = ground (
  arith,
  ==_iff p q,
  ==_iff p k,
  ==_iff q k,
  has_int-append c l (d ∷ []),
  has-add_child p c q d m,
)

has-child_loop :
    (p c : ℕ) (stats : List ProcStat) (m : List (ℕ × List ℕ))
    → has_int c (children_of p (child_loop stats m))
      ≡ (has_int c (children_of p m) || child_of stats p c)
unfolding child_loop
has-child_loop p c [] m = ground arith
has-child_loop p c (st ∷ stats) m = ground (
  arith,
  has-child_loop p c stats (add_child st.ppid st.pid m),
  has-add_child p c st.ppid st.pid m,
)

pub has-child_pid_map :
    (p c : ℕ) (stats : List ProcStat)
    → has_int c (children_of p (child_pid_map stats)) ≡ child_of stats p c
unfolding child_pid_map children_of has_int
has-child_pid_map p c stats = has-child_loop p c stats []

-- How many entries have a pid that is not in the set.
abbrev pub unseen : List ProcStat → List ℕ → ℕ
unseen [] set = 0
unseen (st ∷ stats) set = (if has_int st.pid set then 0 else 1) + unseen stats set

unseen-append :
    (stats : List ProcStat) (set : List ℕ) (c : ℕ) → unseen stats (set ++ c ∷ []) ≤ unseen stats set
unseen-append [] set c = omega arith
unseen-append (st ∷ stats) set c =
    ground (arith, unseen-append stats set c, has_int-append st.pid set (c ∷ []))

unseen_falls :
    (stats : List ProcStat) (set : List ℕ) (p c : ℕ)
    → child_of stats p c ≡ true
    → has_int c set ≡ false
    → unseen stats (set ++ c ∷ []) < unseen stats set
unfolding has_int
unseen_falls [] set p c h k = absurd (cc (h))
unseen_falls (st ∷ stats) set p c h k = elim (Bool-cases (c == st.pid)) [
  | inl e ↦
      let same : c ≡ st.pid = (==_iff c st.pid).0 e in
      let out : has_int st.pid set ≡ false = subst (λ z. has_int z set ≡ false) same k in
      ground (
        arith,
        unseen-append stats set c,
        has_int-append st.pid set (c ∷ []),
        out,
        ==_iff st.pid c,
        same,
      )
  | inr e ↦
      let later : child_of stats p c ≡ true = ground (arith, h, e) in
      ground (
        arith,
        unseen_falls stats set p c later k,
        has_int-append st.pid set (c ∷ []),
        ==_iff st.pid c,
        ==_iff c st.pid,
        e,
      )
]

-- What the loop over children does.
pub record Collected (stats : List ProcStat) (children : List ℕ) (w w' : TreeWalk) : Type 0 where
  pub set : (k : ℕ) → has_int k w'.pid_set ≡ (has_int k w.pid_set || has_int k children)
  pub kept : (k : ℕ) → has_int k w.to_process ≡ true → has_int k w'.to_process ≡ true
  pub queued :
      (k : ℕ)
      → has_int k w'.to_process ≡ true
      → (has_int k w.to_process || has_int k w'.pid_set) ≡ true
  pub added :
      (k : ℕ)
      → has_int k w'.pid_set ≡ true
      → (has_int k w.pid_set || has_int k w'.to_process) ≡ true
  pub distinct : DistinctInts w.pid_set → DistinctInts w'.pid_set
  pub work :
      unseen stats w'.pid_set + length w'.to_process ≤ unseen stats w.pid_set + length w.to_process

pub collect-Collected :
    (stats : List ProcStat) (p : ℕ) (children : List ℕ) (w : TreeWalk)
    → ((c : ℕ) → has_int c children ≡ true → child_of stats p c ≡ true)
    → Collected stats children w (collect children w)
unfolding collect has_int occ_int
collect-Collected stats p [] w real = record {
  set = λ k. ground arith;
  kept = λ k h. h;
  queued = λ k h. ground (arith, h);
  added = λ k h. ground (arith, h);
  distinct = λ d. d;
  work = omega arith;
}
collect-Collected stats p (child ∷ children) w real = elim (Bool-cases (has_int child w.pid_set)) [
  | inl old ↦
      let r = collect-Collected stats p children w (λ c h. real c (ground (arith, h))) in
      rw old (record {
        set = λ k. ground (arith, r.set k, old, ==_iff k child);
        kept = r.kept;
        queued = r.queued;
        added = r.added;
        distinct = r.distinct;
        work = r.work;
      })
  | inr new ↦
      let w1 : TreeWalk = record {
        pid_set = w.pid_set ++ child ∷ [];
        to_process = w.to_process ++ child ∷ [];
      } in
      let r = collect-Collected stats p children w1 (λ c h. real c (ground (arith, h))) in
      let falls =
        unseen_falls stats w.pid_set p child (real child (ground (arith, ==_iff child child)))
          new in
      let longer = length-append w.to_process (child ∷ []) in
      let work = r.work in
      rw new (record {
        set = λ k. ground (arith, r.set k, has_int-append k w.pid_set (child ∷ []));
        kept = λ k h. r.kept k (ground (arith, h, has_int-append k w.to_process (child ∷ [])));
        queued = λ k h. ground (
          arith,
          r.queued k h,
          r.set k,
          has_int-append k w.to_process (child ∷ []),
          has_int-append k w.pid_set (child ∷ []),
        );
        added = λ k h. ground (
          arith,
          r.added k h,
          r.kept k,
          has_int-append k w.to_process (child ∷ []),
          has_int-append k w.pid_set (child ∷ []),
        );
        distinct = λ d. r.distinct (λ n. ground (
          arith,
          d n,
          occ_int-append n w.pid_set (child ∷ []),
          has_int-occ_int n w.pid_set,
          ==_iff n child,
          new,
        ));
        work = omega (arith, work, falls, longer);
      })
]
