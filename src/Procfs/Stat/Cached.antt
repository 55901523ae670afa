-- ===== src/Procfs/Stat/Cached.antt =====
-- The cache of `cachedReadAllProcStats` in go/src/dropbox/procfs/stat.go.
use dbx_build_tools.Base.{
  ℕ, ◌+◌, ◌-◌, ◌≤◌, ◌<◌, ◌≡◌, ◌∙◌, ◌⊎◌, inl, inr, List, ltb, Bool-cases, arith, if◌then◌else◌,
}
use dbx_build_tools.Base.Result.{Result, ok, Result-cases}
use dbx_build_tools.Procfs.Fault.{Fault}
use dbx_build_tools.Procfs.Tree.{ProcStat}
use dbx_build_tools.Procfs.Stat.{Cache, cached_read_all}

-- `reads` is what `readAllProcStats` gives at each time.
module _ (reads : ℕ → Result Fault (List ProcStat)) where
  -- The cache has its initial time, or holds what was read at its time.
  abbrev pub IsFilled : ℕ → Cache → Type 0
  IsFilled now cache =
      (cache.cache_time ≡ 0)
      ⊎ ((cache.cache_time ≤ now) × (reads cache.cache_time ≡ ok cache.cache_proc_stats))

  -- Entries that were read at most `stale_allowed` ago.
  abbrev pub IsRecent : ℕ → ℕ → List ProcStat → Type 0
  IsRecent now stale_allowed ps =
      (time : ℕ) × (time ≤ now) × (now ≤ time + stale_allowed) × (reads time ≡ ok ps)

  -- At a time more than the longest duration after the zero time, and with less than that duration
  -- allowed, the cache stays filled, and what a call gives was read at most so long before it.
  pub cached_read_all-IsRecent :
      (longest now stale_allowed : ℕ) (cache : Cache)
      → longest ≤ now
      → stale_allowed < longest
      → IsFilled now cache
      → IsFilled now (cached_read_all longest now stale_allowed (reads now) cache).0
        × ((ps : List ProcStat)
            → (cached_read_all longest now stale_allowed (reads now) cache).1 ≡ ok ps
            → IsRecent now stale_allowed ps)
  unfolding cached_read_all
  cached_read_all-IsRecent longest now stale cache late short filled =
      elim (Bool-cases (
        ltb stale
          (if ltb longest (now - cache.cache_time) then longest else now - cache.cache_time))) [
            | inl old ↦ elim (Result-cases (reads now)) [
              | inl (ps, e) ↦
                  rw (cached_read_all, old, e)
                    (inr (omega arith, e), λ qs h. (now, omega arith, omega arith, e ∙ h))
              | inr (inl (f, e)) ↦ rw (cached_read_all, old, e) (filled, λ qs h. absurd (cc (h)))
              | inr (inr e) ↦ rw (cached_read_all, old, e) (filled, λ qs h. absurd (cc (h)))
            ]
            | inr young ↦
                rw (cached_read_all, young)
                  (
                    filled,
                    λ qs h. elim filled [
                      | inl zero_time ↦ absurd (ground (arith, young, zero_time))
                      | inr (before, read) ↦ (
                        cache.cache_time,
                        before,
                        ground (arith, young, short),
                        ground (arith, read, h),
                      )
                    ],
                  )
          ]
