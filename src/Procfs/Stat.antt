-- ===== src/Procfs/Stat.antt =====
-- The entries of /proc that go/src/dropbox/procfs/stat.go reads, with their cache.
pub mod Line
pub mod Cached
use dbx_build_tools.Base.{
  ℕ, suc, ◌+◌, ◌-◌, Bool, true, false, Option, none, some, List, [], ◌∷◌, ◌++◌, Str, codes, index,
  slice, take, drop, is_nil, if◌then◌else◌, ltb,
}
use dbx_build_tools.Base.Result.{Result, ok, err, panic, ◌>>=◌}
use dbx_build_tools.Procfs.Fault.{Fault}
use dbx_build_tools.Procfs.Tree.{ProcStat}

-- The four fields that `Sscanf` reads with "%s %d %d %d".
abbrev pub Scanned : Type 0
Scanned = Str × ℕ × ℕ × ℕ

module _ (atoi : Str → Option ℕ) (scan : Str → Option Scanned) where
  abbrev pub stat_of : ℕ → Str → Option Scanned → Result Fault ProcStat
  stat_of pid cmd none = err Fault.other
  stat_of pid cmd (some (state, ppid, pgrp, session_id)) = ok (record {
    pid = pid;
    cmd = cmd;
    state = state;
    ppid = ppid;
    pgrp = pgrp;
    session_id = session_id;
  })

  -- From `stats.Cmd = string(bytes[i+2 : j])` on.
  unfoldable pub parse_rest : ℕ → Str → ℕ → Option ℕ → Result Fault ProcStat
  parse_rest pid bytes i none = panic
  parse_rest pid bytes i (some j) = elim (slice bytes (i + 2) j) [
    | none ↦ panic
    | some cmd ↦ stat_of pid cmd (scan (drop (j + 2) bytes))
  ]

  -- `ReadProcStats` on the bytes of the file.
  unfoldable pub parse_proc_stats : Str → Result Fault ProcStat
  unfolding parse_rest
  parse_proc_stats bytes = elim (index bytes (codes " (")) [
    | none ↦ panic
    | some i ↦ elim (atoi (take i bytes)) [
      | none ↦ err Fault.other
      | some pid ↦ parse_rest pid bytes i (index bytes (codes ") "))
    ]
  ]

  -- The loop of `readAllProcStats` over the names in /proc.
  unfoldable pub stats_loop :
      (ℕ → Result Fault Str) → List Str → List ProcStat → Result Fault (List ProcStat)
  unfolding parse_proc_stats
  stats_loop read_file [] group_stats = ok group_stats
  stats_loop read_file (ent ∷ entries) group_stats = elim (atoi ent) [
    | none ↦ stats_loop read_file entries group_stats
    | some pid ↦ elim (read_file pid >>= parse_proc_stats) [
      | panic ↦ panic
      | err e ↦ stats_loop read_file entries group_stats
      | ok st ↦ stats_loop read_file entries (group_stats ++ st ∷ [])
    ]
  ]

  -- `readAllProcStats`; `entries` is what opening and listing /proc gives.
  unfoldable pub read_all_proc_stats :
      Result Fault (List Str) → (ℕ → Result Fault Str) → Result Fault (List ProcStat)
  unfolding stats_loop
  read_all_proc_stats entries read_file = entries >>= λ names.
      stats_loop read_file names [] >>= λ group_stats.
      if is_nil group_stats then err Fault.other else ok group_stats

-- `cacheTime` and `cacheProcStats`, with times in nanoseconds since the zero time.
pub record Cache : Type 0 where
  pub cache_time : ℕ
  pub cache_proc_stats : List ProcStat

-- `cachedReadAllProcStats`, where `longest` is the greatest Duration, at which `Sub` stops.
unfoldable pub cached_read_all :
    ℕ → ℕ → ℕ → Result Fault (List ProcStat) → Cache → Cache × Result Fault (List ProcStat)
cached_read_all longest now stale_allowed read cache =
    let age = now - cache.cache_time in
    if ltb stale_allowed (if ltb longest age then longest else age)
    then elim read [
      | panic ↦ (cache, panic)
      | err e ↦ (cache, err e)
      | ok ps ↦ (record { cache_time = now; cache_proc_stats = ps }, ok ps)
    ]
    else (cache, ok cache.cache_proc_stats)
