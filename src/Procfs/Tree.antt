-- ===== src/Procfs/Tree.antt =====
-- The process trees of go/src/dropbox/procfs/stat.go, on the entries of /proc that were read.
pub mod Reached
pub mod Descend
pub mod Pids
use dbx_build_tools.Base.{
  ℕ, zero, suc, ◌==◌, Bool, true, false, Option, none, some, List, [], ◌∷◌, ◌++◌, Str, has_int,
  is_nil, if◌then◌else◌,
}
use dbx_build_tools.Base.Result.{Result, ok, err, panic, ◌>>=◌}

pub record ProcStat : Type 0 where
  pub pid : ℕ
  pub cmd : Str
  pub state : Str
  pub ppid : ℕ
  pub pgrp : ℕ
  pub session_id : ℕ

-- `result[ppid] = append(result[ppid], pid)`
unfoldable pub add_child : ℕ → ℕ → List (ℕ × List ℕ) → List (ℕ × List ℕ)
add_child ppid pid [] = (ppid, pid ∷ []) ∷ []
add_child ppid pid ((p, l) ∷ m) =
    let rest = add_child ppid pid m in if ppid == p then (p, l ++ pid ∷ []) ∷ m else (p, l) ∷ rest

unfoldable pub child_loop : List ProcStat → List (ℕ × List ℕ) → List (ℕ × List ℕ)
unfolding add_child
child_loop [] m = m
child_loop (st ∷ stats) m = child_loop stats (add_child st.ppid st.pid m)

-- `getChildPidMap`
unfoldable pub child_pid_map : List ProcStat → List (ℕ × List ℕ)
unfolding child_loop
child_pid_map stats = child_loop stats []

-- `pidToChildren[pid]`
unfoldable pub children_of : ℕ → List (ℕ × List ℕ) → List ℕ
children_of pid [] = []
children_of pid ((p, l) ∷ m) = if pid == p then l else children_of pid m

pub record TreeWalk : Type 0 where
  pub pid_set : List ℕ
  pub to_process : List ℕ

-- The loop over the children of a process.
unfoldable pub collect : List ℕ → TreeWalk → TreeWalk
unfolding has_int
collect [] w = w
collect (child ∷ children) w = collect children (
    if has_int child w.pid_set
    then w
    else record { pid_set = w.pid_set ++ child ∷ []; to_process = w.to_process ++ child ∷ [] })

-- `for len(toProcess) > 0`; `none` means that the fuel ran out.
unfoldable pub walk_loop : ℕ → List (ℕ × List ℕ) → TreeWalk → Option (List ℕ)
unfolding collect children_of
walk_loop zero children w = elim w.to_process [ [] ↦ some w.pid_set | _ ∷ _ ↦ none ]
walk_loop (suc fuel) children w = elim w.to_process [
  | [] ↦ some w.pid_set
  | pid ∷ rest ↦
      walk_loop fuel children (collect (children_of pid children) (record w { to_process = rest }))
]

-- `pidSet[pid] = struct{}{}`
unfoldable pub add_pid : ℕ → List ℕ → List ℕ
unfolding has_int
add_pid pid pids = if has_int pid pids then pids else pids ++ pid ∷ []

-- The pids of the processes that pass a test, each one once.
unfoldable pub pids_where : (ProcStat → Bool) → List ProcStat → List ℕ → List ℕ
unfolding add_pid
pids_where test [] pids = pids
pids_where test (st ∷ stats) pids =
    pids_where test stats (if test st then add_pid st.pid pids else pids)

-- `toIntSlice` gives the pids in the order in which Go walks the map.
module _ {E : Type 0} (to_int_slice : List ℕ → List ℕ) where
  -- `GetProcessTreePids`, without its cache.
  unfoldable pub process_tree_pids :
      E → ℕ → ℕ → Result E (List ProcStat) → Option (Result E (List ℕ))
  unfolding pids_where child_pid_map walk_loop
  process_tree_pids esrch fuel session_id read = elim read [
    | panic ↦ some panic
    | err e ↦ some (err e)
    | ok stats ↦
        let pid_set = pids_where (λ st. st.session_id == session_id) stats [] in
        if is_nil pid_set
        then some (err esrch)
        else elim (walk_loop fuel (child_pid_map stats)
            (record { pid_set = pid_set; to_process = to_int_slice pid_set })) [
              | none ↦ none
              | some pids ↦ some (ok (to_int_slice pids))
            ]
  ]

  -- `GetProcessDescendents`
  unfoldable pub process_descendents : ℕ → ℕ → Result E (List ProcStat) → Option (Result E (List ℕ))
  unfolding child_pid_map walk_loop
  process_descendents fuel parent_pid read = elim read [
    | panic ↦ some panic
    | err e ↦ some (err e)
    | ok stats ↦
        elim (walk_loop fuel (child_pid_map stats)
          (record { pid_set = parent_pid ∷ []; to_process = to_int_slice (parent_pid ∷ []) })) [
            | none ↦ none
            | some pids ↦ some (ok (to_int_slice pids))
          ]
  ]

-- The loops of `GetPgrpPids` and `GetSessionIdPids`, where an entry is taken as often as it is there.
unfoldable pub all_pids_where : (ProcStat → Bool) → List ProcStat → List ℕ
all_pids_where test [] = []
all_pids_where test (st ∷ stats) =
    let rest = all_pids_where test stats in if test st then st.pid ∷ rest else rest

module _ {E : Type 0} (esrch : E) where
  abbrev pub some_pids : List ℕ → Result E (List ℕ)
  some_pids pids = if is_nil pids then err esrch else ok pids

  unfoldable pub pgrp_pids : ℕ → Result E (List ProcStat) → Result E (List ℕ)
  unfolding all_pids_where
  pgrp_pids pgrp read = read >>= λ stats. some_pids (all_pids_where (λ st. st.pgrp == pgrp) stats)

  unfoldable pub session_id_pids : ℕ → Result E (List ProcStat) → Result E (List ℕ)
  unfolding all_pids_where
  session_id_pids session_id read =
      read >>= λ stats. some_pids (all_pids_where (λ st. st.session_id == session_id) stats)
