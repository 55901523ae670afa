-- ===== src/Procfs/Usage.antt =====
-- The memory, the traffic and the processor time of processes: go/src/dropbox/procfs/procfs.go and
-- go/src/dropbox/cputime/cputime.go. An `int64` is its residue modulo 2^64.
pub mod Totals
use dbx_build_tools.Base.{
  ℕ, ◌+◌, ◌-◌, ◌*◌, ◌/◌, ◌%◌, ◌^◌, Bool, true, false, ◌||◌, ◌&&◌, Option, none, some, List, [], ◌∷◌,
  ◌++◌, ◌==◌, leb, ltb, Str, str_eq, codes, is_nil, if◌then◌else◌,
}
use dbx_build_tools.Base.Result.{Result, ok, err, panic, ◌>>=◌}
use dbx_build_tools.Procfs.Fault.{Fault, not_exist, esrch, permission, other}
use dbx_build_tools.Procfs.Tree.{ProcStat, process_descendents, process_tree_pids, session_id_pids}

abbrev pub wrap64 : ℕ → ℕ
wrap64 n = n % 18446744073709551616

abbrev pub is_space : ℕ → Bool
is_space c = c == 32 || (leb 9 c && leb c 13)

-- A piece that has ended, if it is not empty.
abbrev pub close_piece : Str → List Str → List Str
close_piece piece pieces = if is_nil piece then pieces else piece ∷ pieces

-- `bytes.Fields` on ASCII.
unfoldable pub fields : Str → Str → List Str
fields piece [] = close_piece piece []
fields piece (c ∷ s) =
    let longer = fields (piece ++ c ∷ []) s in
    if is_space c then close_piece piece (fields [] s) else longer

-- A file that is missing, and one whose process went away.
unfoldable pub no_process : Fault → Fault
no_process not_exist = esrch
no_process esrch = esrch
no_process permission = permission
no_process other = other

unfoldable pub with_no_process : Result Fault Str → Result Fault Str
unfolding no_process
with_no_process (ok bytes) = ok bytes
with_no_process (err f) = err (no_process f)
with_no_process panic = panic

pub record IoStats : Type 0 where
  pub syscr : ℕ
  pub syscw : ℕ
  pub read_bytes : ℕ
  pub write_bytes : ℕ

abbrev pub no_io : IoStats
no_io = record { syscr = 0; syscw = 0; read_bytes = 0; write_bytes = 0 }

-- The `switch` of `GetIOStats`.
unfoldable pub add_io : Str → ℕ → IoStats → IoStats
unfolding str_eq
add_io k u r =
    if str_eq k (codes "syscr:")
    then record r { syscr = wrap64 (r.syscr + u) }
    else if str_eq k (codes "syscw:")
    then record r { syscw = wrap64 (r.syscw + u) }
    else if str_eq k (codes "read_bytes:")
    then record r { read_bytes = wrap64 (r.read_bytes + u) }
    else if str_eq k (codes "write_bytes:")
    then record r { write_bytes = wrap64 (r.write_bytes + u) }
    else r

module _ (atoi : Str → Option ℕ) where
  abbrev pub page_field : List Str → Result Fault (ℕ × List Str)
  page_field [] = panic
  page_field (field ∷ rest) = elim (atoi field) [ none ↦ err other | some n ↦ ok (n, rest) ]

  -- `GetVszRssBytes`, on what reading its file gives.
  unfoldable pub vsz_rss_bytes : ℕ → Result Fault Str → Result Fault (ℕ × ℕ)
  unfolding with_no_process fields
  vsz_rss_bytes page_size file = with_no_process file >>= λ bytes.
      page_field (fields [] bytes) >>= λ (vsz_pages, rest). page_field rest >>= λ (rss_pages, _).
      ok (wrap64 (vsz_pages * page_size), wrap64 (rss_pages * page_size))

  unfoldable pub io_loop : List Str → IoStats → Result Fault IoStats
  unfolding add_io
  io_loop [] retval = ok retval
  io_loop (k ∷ []) retval = ok retval
  io_loop (k ∷ v ∷ rest) retval = elim (atoi v) [
    | none ↦ err other
    | some u ↦ io_loop rest (add_io k u retval)
  ]

  -- `GetIOStats`
  unfoldable pub io_stats : Result Fault Str → Result Fault IoStats
  unfolding with_no_process fields io_loop
  io_stats file = with_no_process file >>= λ bytes. io_loop (fields [] bytes) no_io

-- The loop of `getTotalVszRssBytes`
unfoldable pub vsz_rss_loop : (ℕ → Result Fault (ℕ × ℕ)) → List ℕ → ℕ × ℕ → Result Fault (ℕ × ℕ)
vsz_rss_loop measure [] sums = ok sums
vsz_rss_loop measure (pid ∷ pids) (vsz_sum, rss_sum) = elim (measure pid) [
  | panic ↦ panic
  | err esrch ↦ vsz_rss_loop measure pids (vsz_sum, rss_sum)
  | err not_exist ↦ err not_exist
  | err permission ↦ err permission
  | err other ↦ err other
  | ok (vsz, rss) ↦ vsz_rss_loop measure pids (wrap64 (vsz_sum + vsz), wrap64 (rss_sum + rss))
]

-- `getTotalVszRssBytes`
unfoldable pub total_vsz_rss_bytes : (ℕ → Result Fault (ℕ × ℕ)) → List ℕ → Result Fault (ℕ × ℕ)
unfolding vsz_rss_loop
total_vsz_rss_bytes measure pids = vsz_rss_loop measure pids (0, 0)

-- The loop of `getTotalIOStats`
unfoldable pub total_io_loop : (ℕ → Result Fault IoStats) → List ℕ → IoStats → Result Fault IoStats
total_io_loop measure [] stats = ok stats
total_io_loop measure (pid ∷ pids) stats = elim (measure pid) [
  | panic ↦ panic
  | err esrch ↦ total_io_loop measure pids stats
  | err not_exist ↦ err not_exist
  | err permission ↦ err permission
  | err other ↦ err other
  | ok stat ↦ total_io_loop measure pids (record stats {
    syscw = wrap64 (stats.syscw + stat.syscw);
    write_bytes = wrap64 (stats.write_bytes + stat.write_bytes);
  })
]

-- `getTotalIOStats`
unfoldable pub total_io_stats : (ℕ → Result Fault IoStats) → List ℕ → Result Fault IoStats
unfolding total_io_loop
total_io_stats measure pids = total_io_loop measure pids no_io

-- A total over the pids that a walk found.
abbrev pub over_pids :
    {A : Type 0}
    → (List ℕ → Result Fault A)
    → Option (Result Fault (List ℕ))
    → Option (Result Fault A)
over_pids total none = none
over_pids total (some pids) = some (pids >>= total)

-- `GetSessionVszRssBytes`, on the entries that the cache gives.
unfoldable pub session_vsz_rss_bytes :
    (ℕ → Result Fault (ℕ × ℕ)) → ℕ → Result Fault (List ProcStat) → Result Fault (ℕ × ℕ)
unfolding session_id_pids total_vsz_rss_bytes
session_vsz_rss_bytes measure sid read =
    session_id_pids esrch sid read >>= λ pids. total_vsz_rss_bytes measure pids

module _ (to_int_slice : List ℕ → List ℕ) (fuel : ℕ) where
  -- `GetProcessTreeVszRssBytes`
  unfoldable pub process_tree_vsz_rss_bytes :
      (ℕ → Result Fault (ℕ × ℕ)) → ℕ → Result Fault (List ProcStat) → Option (Result Fault (ℕ × ℕ))
  unfolding process_tree_pids total_vsz_rss_bytes
  process_tree_vsz_rss_bytes measure sid read =
      over_pids (total_vsz_rss_bytes measure) (process_tree_pids to_int_slice esrch fuel sid read)

  -- `GetProcessDescendantsVszRssBytes`
  unfoldable pub process_descendants_vsz_rss_bytes :
      (ℕ → Result Fault (ℕ × ℕ)) → ℕ → Result Fault (List ProcStat) → Option (Result Fault (ℕ × ℕ))
  unfolding process_descendents total_vsz_rss_bytes
  process_descendants_vsz_rss_bytes measure pid read =
      over_pids (total_vsz_rss_bytes measure) (process_descendents to_int_slice fuel pid read)

  -- `GetProcessTreeIOStats`
  unfoldable pub process_tree_io_stats :
      (ℕ → Result Fault IoStats) → ℕ → Result Fault (List ProcStat) → Option (Result Fault IoStats)
  unfolding process_tree_pids total_io_stats
  process_tree_io_stats measure sid read =
      over_pids (total_io_stats measure) (process_tree_pids to_int_slice esrch fuel sid read)

-- The times of a process that goprocinfo reads.
pub record ProcessStat : Type 0 where
  pub utime : ℕ
  pub stime : ℕ
  pub cutime : ℕ
  pub cstime : ℕ

-- Division of an `int64` by a positive one, towards zero.
abbrev pub div64 : ℕ → ℕ → ℕ
div64 a b =
    if ltb a 9223372036854775808
    then a / b
    else wrap64 (18446744073709551616 - (18446744073709551616 - a) / b)

-- `CPUTime`, on the ticks in a second and what reading the process gives; `none` is no tick or fewer.
unfoldable pub cpu_time : Option ℕ → Result Fault ProcessStat → Result Fault ℕ
cpu_time none read = err other
cpu_time (some hz) read = read >>= λ stat.
    let ticks = wrap64 (stat.utime + stat.stime + stat.cutime + stat.cstime) in
    if hz == 0 then err other else ok (div64 (wrap64 (1000000000 * ticks)) hz)

-- The loop of `RecursiveCPUTime`
unfoldable pub cpu_loop : (ℕ → Result Fault ℕ) → List ℕ → ℕ → Result Fault ℕ
cpu_loop time [] total = ok total
cpu_loop time (pid ∷ pids) total = time pid >>= λ t. cpu_loop time pids (wrap64 (total + t))

-- `RecursiveCPUTime`
unfoldable pub recursive_cpu_time :
    (List ℕ → List ℕ)
    → ℕ
    → ℕ
    → Result Fault (List ProcStat)
    → (ℕ → Result Fault ℕ)
    → Option (Result Fault ℕ)
unfolding process_descendents cpu_loop
recursive_cpu_time to_int_slice fuel root_pid read time =
    over_pids (λ pids. cpu_loop time pids 0) (process_descendents to_int_slice fuel root_pid read)
