-- ===== src/Procfs/Tests.antt =====
-- Runs of the models of go/src/dropbox/procfs and go/src/dropbox/cputime.
use dbx_build_tools.Base.{
  ℕ, ◌+◌, ◌*◌, ◌==◌, ◌≡◌, refl, ◌⊎◌, inr, true, false, Option, none, some, List, [], ◌∷◌, Str,
  codes, All, arith, ltb, if◌then◌else◌, has_int, contains_byte, str_eq, index, insert, ◌-◌,
}
use dbx_build_tools.Base.Result.{Result, ok, err}
use dbx_build_tools.Procfs.Fault.{Fault, esrch, other}
use dbx_build_tools.Procfs.Tree.{ProcStat, process_tree_pids}
use dbx_build_tools.Procfs.Tree.Descend.{AreDescendants}
use dbx_build_tools.Procfs.Tree.Pids.{HasEachOnce, is_session_pid, process_tree_pids-AreDescendants}
use dbx_build_tools.Procfs.Stat.{Scanned, stat_of, parse_proc_stats, Cache, cached_read_all}
use dbx_build_tools.Procfs.Stat.Line.{parse_proc_stats-line}
use dbx_build_tools.Procfs.Stat.Cached.{IsFilled, IsRecent, cached_read_all-IsRecent}
use dbx_build_tools.Procfs.Env.Bindings.{bind_all}
use dbx_build_tools.Procfs.Usage.{recursive_cpu_time, wrap64}
use dbx_build_tools.Procfs.Usage.Totals.{sum_of, IsTimed, recursive_cpu_time-sum}

abbrev proc : ℕ → ℕ → ℕ → ProcStat
proc pid ppid session_id = record {
  pid = pid;
  cmd = codes "sh";
  state = codes "S";
  ppid = ppid;
  pgrp = pid;
  session_id = session_id;
}

-- 7 has the child 8, which has the child 9 in another session; 5 is by itself.
abbrev stats : List ProcStat
stats = proc 5 1 5 ∷ proc 7 1 7 ∷ proc 8 7 7 ∷ proc 9 8 9 ∷ []

abbrev same_order : List ℕ → List ℕ
same_order set = set

same_order-HasEachOnce : HasEachOnce same_order
same_order-HasEachOnce = record { same = λ set k. refl; as_long = λ set. refl }

tree_of_seven : process_tree_pids same_order esrch 8 7 (ok stats) ≡ some (ok (7 ∷ 8 ∷ 9 ∷ []))
unfolding process_tree_pids has_int
tree_of_seven = refl

process_tree_pids-AreDescendants_example :
    ((process_tree_pids same_order esrch 8 7 (ok stats) ≡ some (err esrch))
      × ((k : ℕ) → is_session_pid 7 stats k ≡ false))
    ⊎ ((pids : List ℕ) × (process_tree_pids same_order esrch 8 7 (ok stats) ≡ some (ok pids))
        × ((k : ℕ) × (is_session_pid 7 stats k ≡ true))
        × AreDescendants stats (is_session_pid 7 stats) pids)
process_tree_pids-AreDescendants_example =
    process_tree_pids-AreDescendants same_order same_order-HasEachOnce esrch 8 7 stats (omega arith)

-- A number of two digits, and four fields.
abbrev atoi : Str → Option ℕ
atoi [] = none
atoi (a ∷ []) = none
atoi (a ∷ b ∷ []) = some (10 * (a - 48) + (b - 48))
atoi (a ∷ b ∷ c ∷ s) = none

abbrev scan : Str → Option Scanned
scan [] = none
scan (c ∷ rest) = if c == 83 then some (codes "S", 1, 12, 12) else none

parse_proc_stats-line_example :
    parse_proc_stats atoi scan (codes "12 (a (b) S 1 12 12")
    ≡ stat_of atoi scan 12 (codes "a (b") (scan (codes "S 1 12 12"))
parse_proc_stats-line_example =
    parse_proc_stats-line atoi scan 12 (codes "12") (codes "a (b") (codes "S 1 12 12") refl
      (unfold contains_byte in refl) (unfold contains_byte in refl) (unfold index in refl)

abbrev reads : ℕ → Result Fault (List ProcStat)
reads time = if ltb time 100 then err other else ok stats

abbrev old_cache : Cache
old_cache = record { cache_time = 100; cache_proc_stats = stats }

cached_read_all-IsRecent_example :
    IsFilled reads 104 (cached_read_all 50 104 10 (reads 104) old_cache).0
    × ((ps : List ProcStat)
        → (cached_read_all 50 104 10 (reads 104) old_cache).1 ≡ ok ps
        → IsRecent reads 104 10 ps)
cached_read_all-IsRecent_example =
    cached_read_all-IsRecent reads 50 104 10 old_cache (omega arith) (omega arith)
      (inr (omega arith, refl))

abbrev bindings : List (Str × Str)
bindings = (codes "A", codes "x=y") ∷ (codes "B", []) ∷ (codes "A", codes "z") ∷ []

last_binding_holds : bind_all bindings [] ≡ (codes "A", codes "z") ∷ (codes "B", []) ∷ []
last_binding_holds = unfold insert str_eq in refl

abbrev time : ℕ → Result Fault ℕ
time pid = ok (pid * 1000)

recursive_cpu_time-sum_example :
    (pids : List ℕ) × AreDescendants stats (λ k. k == 7) pids
    × All (IsTimed time) pids
    × (24000 ≡ wrap64 (sum_of time (λ t. t) pids))
recursive_cpu_time-sum_example =
    recursive_cpu_time-sum same_order same_order-HasEachOnce 5 7 stats time 24000 (omega arith)
      (unfold recursive_cpu_time has_int in refl)
