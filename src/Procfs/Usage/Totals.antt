-- ===== src/Procfs/Usage/Totals.antt =====
-- The sums over processes of go/src/dropbox/procfs/procfs.go and go/src/dropbox/cputime/cputime.go.
use mathlib.Core.Path.{ap₂}
use dbx_build_tools.Base.{
  ℕ, ◌+◌, ◌<◌, ◌≡◌, sym, ap, ◌∙◌, ◌↔◌, ◌⊎◌, inl, inr, some, List, [], ◌∷◌, ◌==◌, All, arith, length,
}
use dbx_build_tools.Base.Result.{Result, ok, err, panic, Result-cases}
use dbx_build_tools.Procfs.Fault.{Fault, not_exist, esrch, permission, other}
use dbx_build_tools.Procfs.Tree.{ProcStat}
use dbx_build_tools.Procfs.Tree.Descend.{AreDescendants}
use dbx_build_tools.Procfs.Tree.Pids.{HasEachOnce, process_descendents-AreDescendants}
use dbx_build_tools.Procfs.Usage.{
  wrap64, IoStats, no_io, vsz_rss_loop, total_vsz_rss_bytes, total_io_loop, total_io_stats,
  cpu_loop, recursive_cpu_time,
}

-- A part of a measurement, and nothing of one that failed.
abbrev pub amount : {A : Type 0} → (A → ℕ) → Result Fault A → ℕ
amount part (ok a) = part a
amount part (err f) = 0
amount part panic = 0

module _ {A : Type 0} (measure : ℕ → Result Fault A) where
  -- The process was measured, or is gone.
  abbrev pub IsCounted : ℕ → Type 0
  IsCounted pid = (measure pid ≡ err esrch) ⊎ ((a : A) × (measure pid ≡ ok a))

  abbrev pub sum_of : (A → ℕ) → List ℕ → ℕ
  sum_of part [] = 0
  sum_of part (pid ∷ pids) = amount part (measure pid) + sum_of part pids

wrap64-add : (a b : ℕ) → wrap64 (wrap64 a + b) ≡ wrap64 (a + b)
wrap64-add a b = omega arith

vsz_rss_loop-sums :
    (measure : ℕ → Result Fault (ℕ × ℕ)) (pids : List ℕ) (vsz rss : ℕ)
    → All (IsCounted measure) pids
    → vsz_rss_loop measure pids (wrap64 vsz, wrap64 rss)
      ≡ ok (
        wrap64 (vsz + sum_of measure (λ u. u.0) pids),
        wrap64 (rss + sum_of measure (λ u. u.1) pids),
      )
unfolding vsz_rss_loop
vsz_rss_loop-sums measure [] vsz rss all =
    ap₂ (λ (a b : ℕ). ok (wrap64 a, wrap64 b)) (omega arith) (omega arith)
vsz_rss_loop-sums measure (pid ∷ pids) vsz rss (inl gone, all) =
    rw (vsz_rss_loop, gone)
      (vsz_rss_loop-sums measure pids vsz rss all
        ∙ ap₂ (λ (a b : ℕ). ok (wrap64 a, wrap64 b)) (omega arith) (omega arith))
vsz_rss_loop-sums measure (pid ∷ pids) vsz rss (inr ((v, r), e), all) =
    rw (vsz_rss_loop, e)
      (ap₂ (λ (a b : ℕ). vsz_rss_loop measure pids (a, b)) (wrap64-add vsz v) (wrap64-add rss r)
        ∙ vsz_rss_loop-sums measure pids (vsz + v) (rss + r) all
        ∙ ap₂ (λ (a b : ℕ). ok (wrap64 a, wrap64 b)) (omega arith) (omega arith))

vsz_rss_loop-IsCounted :
    (measure : ℕ → Result Fault (ℕ × ℕ)) (pids : List ℕ) (sums out : ℕ × ℕ)
    → vsz_rss_loop measure pids sums ≡ ok out
    → All (IsCounted measure) pids
unfolding vsz_rss_loop
vsz_rss_loop-IsCounted measure [] sums out h = tt
vsz_rss_loop-IsCounted measure (pid ∷ pids) (vsz, rss) out h = elim (Result-cases (measure pid)) [
  | inl ((v, r), e) ↦ (
    inr ((v, r), e),
    vsz_rss_loop-IsCounted measure pids (wrap64 (vsz + v), wrap64 (rss + r)) out
        (ground (arith, h, e)),
  )
  | inr (inl (esrch, e)) ↦
      (inl e, vsz_rss_loop-IsCounted measure pids (vsz, rss) out (ground (arith, h, e)))
  | inr (inl (not_exist, e)) ↦ absurd (ground (arith, h, e))
  | inr (inl (permission, e)) ↦ absurd (ground (arith, h, e))
  | inr (inl (other, e)) ↦ absurd (ground (arith, h, e))
  | inr (inr e) ↦ absurd (ground (arith, h, e))
]

-- The sums of `getTotalVszRssBytes` succeed exactly if each process was measured or is gone, and then
-- they are the sums over those that were measured, modulo 2^64.
total_vsz_rss_bytes_iff :
    (measure : ℕ → Result Fault (ℕ × ℕ)) (pids : List ℕ) (vsz rss : ℕ)
    → (total_vsz_rss_bytes measure pids ≡ ok (vsz, rss)) ↔ (
        All (IsCounted measure) pids
        × (vsz ≡ wrap64 (sum_of measure (λ u. u.0) pids))
        × (rss ≡ wrap64 (sum_of measure (λ u. u.1) pids)))
unfolding total_vsz_rss_bytes
total_vsz_rss_bytes_iff measure pids vsz rss = (
  λ h.
      let all = vsz_rss_loop-IsCounted measure pids (0, 0) (vsz, rss) h in
      let sums = vsz_rss_loop-sums measure pids 0 0 all in
      (all, ground (arith, h, sums), ground (arith, h, sums)),
  λ (all, e, f). ground (arith, vsz_rss_loop-sums measure pids 0 0 all, e, f),
)

total_io_loop-sums :
    (measure : ℕ → Result Fault IoStats) (pids : List ℕ) (calls written : ℕ)
    → All (IsCounted measure) pids
    → total_io_loop measure pids
        (record no_io { syscw = wrap64 calls; write_bytes = wrap64 written })
      ≡ ok (record no_io {
        syscw = wrap64 (calls + sum_of measure (λ u. u.syscw) pids);
        write_bytes = wrap64 (written + sum_of measure (λ u. u.write_bytes) pids);
      })
unfolding total_io_loop
total_io_loop-sums measure [] calls written all =
    ap₂ (λ (a b : ℕ). ok (record no_io { syscw = wrap64 a; write_bytes = wrap64 b })) (omega arith)
      (omega arith)
total_io_loop-sums measure (pid ∷ pids) calls written (inl gone, all) =
    rw (total_io_loop, gone)
      (total_io_loop-sums measure pids calls written all
        ∙ ap₂ (λ (a b : ℕ). ok (record no_io { syscw = wrap64 a; write_bytes = wrap64 b }))
            (omega arith) (omega arith))
total_io_loop-sums measure (pid ∷ pids) calls written (inr (u, e), all) =
    rw (total_io_loop, e)
      (ap₂ (λ (a b : ℕ). total_io_loop measure pids (record no_io { syscw = a; write_bytes = b }))
          (wrap64-add calls u.syscw) (wrap64-add written u.write_bytes)
        ∙ total_io_loop-sums measure pids (calls + u.syscw) (written + u.write_bytes) all
        ∙ ap₂ (λ (a b : ℕ). ok (record no_io { syscw = wrap64 a; write_bytes = wrap64 b }))
            (omega arith) (omega arith))

-- The calls and bytes written are summed over the processes that are there, modulo 2^64; the calls
-- and bytes read stay at 0.
total_io_stats-sums :
    (measure : ℕ → Result Fault IoStats) (pids : List ℕ)
    → All (IsCounted measure) pids
    → total_io_stats measure pids
      ≡ ok (record {
        syscr = 0;
        syscw = wrap64 (sum_of measure (λ u. u.syscw) pids);
        read_bytes = 0;
        write_bytes = wrap64 (sum_of measure (λ u. u.write_bytes) pids);
      })
unfolding total_io_stats
total_io_stats-sums measure pids all = ground (arith, total_io_loop-sums measure pids 0 0 all)

-- All measured times, none of which failed.
abbrev pub IsTimed : (ℕ → Result Fault ℕ) → ℕ → Type 0
IsTimed time pid = (t : ℕ) × (time pid ≡ ok t)

cpu_loop-sums :
    (time : ℕ → Result Fault ℕ) (pids : List ℕ) (total out : ℕ)
    → cpu_loop time pids (wrap64 total) ≡ ok out
    → All (IsTimed time) pids × (out ≡ wrap64 (total + sum_of time (λ t. t) pids))
unfolding cpu_loop
cpu_loop-sums time [] total out h = (tt, ground (arith, h))
cpu_loop-sums time (pid ∷ pids) total out h = elim (Result-cases (time pid)) [
  | inl (t, e) ↦
      let after : cpu_loop time pids (wrap64 (wrap64 total + t)) ≡ ok out = ground (arith, h, e) in
      let (all, sum) =
        cpu_loop-sums time pids (total + t) out
          (ap (cpu_loop time pids) (sym (wrap64-add total t)) ∙ after) in
      let timed : All (IsTimed time) (pid ∷ pids) = ((t, e), all) in
      (timed, rw (e) (omega (arith, sum)))
  | inr (inl (f, e)) ↦ absurd (ground (arith, h, e))
  | inr (inr e) ↦ absurd (ground (arith, h, e))
]

-- When the recursive time is found, each descendant's time was read, the process's own among them,
-- and it is their sum modulo 2^64, each descendant taken once.
pub recursive_cpu_time-sum :
    (to_int_slice : List ℕ → List ℕ)
    → HasEachOnce to_int_slice
    → (fuel root_pid : ℕ) (stats : List ProcStat) (time : ℕ → Result Fault ℕ) (out : ℕ)
    → length stats < fuel
    → recursive_cpu_time to_int_slice fuel root_pid (ok stats) time ≡ some (ok out)
    → (pids : List ℕ) × AreDescendants stats (λ k. k == root_pid) pids
      × All (IsTimed time) pids
      × (out ≡ wrap64 (sum_of time (λ t. t) pids))
unfolding recursive_cpu_time
recursive_cpu_time-sum to_int_slice once fuel root_pid stats time out enough h =
    let (pids, run, all) =
      process_descendents-AreDescendants to_int_slice once {E = Fault} fuel root_pid stats enough in
    let loop : cpu_loop time pids (wrap64 0) ≡ ok out = ground (arith, h, run) in
    let (timed, sum) = cpu_loop-sums time pids 0 out loop in (pids, all, timed, ground (arith, sum))
