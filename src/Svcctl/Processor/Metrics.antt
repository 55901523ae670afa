-- ===== src/Svcctl/Processor/Metrics.antt =====
-- The totals of `Diagnostics` in go/src/dropbox/build_tools/svcctl/processor.go.
use dbx_build_tools.Base.{
  ℕ, ◌+◌, ◌≡◌, ap, ◌∙◌, arith, Option, refl, ◌⊎◌, inl, inr, none, some, List, [], ◌∷◌, Option-cases,
}
use dbx_build_tools.Procfs.Usage.{wrap64}
use dbx_build_tools.Svcctl.Service.{ServiceDef}
use dbx_build_tools.Svcctl.Processor.Status.{
  StatusEnv, RssEnd, measured, esrch, rss_failed, get_pid, total_loop, metrics_of, milliseconds,
}

RssEnd-cases :
    (end : RssEnd) → (end ≡ rss_failed) ⊎ ((rss : ℕ) × ((end ≡ measured rss) ⊎ (end ≡ esrch rss)))
RssEnd-cases (measured rss) = inr (rss, inl refl)
RssEnd-cases (esrch rss) = inr (rss, inr refl)
RssEnd-cases rss_failed = inl refl

wrap64-add : (a b : ℕ) → wrap64 (a + wrap64 b) ≡ wrap64 (a + b)
wrap64-add a b = omega arith

sums :
    (cpu c rss r : ℕ)
    → ◌≡◌ {A = Option (ℕ × ℕ)}
        (some (wrap64 (cpu + wrap64 c), wrap64 (rss + wrap64 r)))
        (some (wrap64 (cpu + c), wrap64 (rss + r)))
sums cpu c rss r =
    ap (λ (a : ℕ). some (a, wrap64 (rss + wrap64 r))) (wrap64-add cpu c)
    ∙ ap (λ (b : ℕ). some (wrap64 (cpu + c), b)) (wrap64-add rss r)

module _ (env : StatusEnv) where
  open env use {descendents, cpu_time, vsz_rss_bytes}

  -- The sums of the measurements of processes, all of which worked.
  pub data Totals : List ℕ → ℕ → ℕ → Type 0 where
    nobody : Totals [] 0 0
    one_more :
        {pid cpu rss c r : ℕ} {pids : List ℕ}
        → cpu_time pid ≡ some cpu
        → (vsz_rss_bytes pid ≡ measured rss) ⊎ (vsz_rss_bytes pid ≡ esrch rss)
        → Totals pids c r
        → Totals (pid ∷ pids) (cpu + c) (rss + r)

  total_loop-Totals :
      (pids : List ℕ)
      → (total_loop env pids ≡ none)
        ⊎ ((c : ℕ) × (r : ℕ) × (total_loop env pids ≡ some (wrap64 c, wrap64 r)) × Totals pids c r)
  unfolding total_loop
  total_loop-Totals [] = inr (0, 0, refl, nobody)
  total_loop-Totals (pid ∷ pids) = elim (Option-cases (cpu_time pid)) [
    | inl e ↦ inl (rw (e, total_loop) refl)
    | inr (cpu, e) ↦ elim (total_loop-Totals pids) [
      | inl n ↦ inl (elim (RssEnd-cases (vsz_rss_bytes pid)) [
        | inl f ↦ rw (e, total_loop) (rw f refl)
        | inr (rss, inl f) ↦ rw (e, total_loop) (rw f (rw n refl))
        | inr (rss, inr f) ↦ rw (e, total_loop) (rw f (rw n refl))
      ])
      | inr (c, r, h, t) ↦ elim (RssEnd-cases (vsz_rss_bytes pid)) [
        | inl f ↦ inl (rw (e, total_loop) (rw f refl))
        | inr (rss, inl f) ↦ inr (
          cpu + c,
          rss + r,
          rw (e, total_loop) (rw f (rw h (sums cpu c rss r))),
          one_more e (inl f) t,
        )
        | inr (rss, inr f) ↦ inr (
          cpu + c,
          rss + r,
          rw (e, total_loop) (rw f (rw h (sums cpu c rss r))),
          one_more e (inr f) t,
        )
      ]
    ]
  ]

  -- `Diagnostics` reports the sums over all descendents of a service modulo 2^64, that of the CPU
  -- times in milliseconds, where no measurement had a failure other than ESRCH, or it reports zero for
  -- both: never a part of them.
  pub metrics_of_whole :
      (svc : ServiceDef)
      → (metrics_of env svc ≡ (0, 0))
        ⊎ ((pids : List ℕ) × (c : ℕ) × (r : ℕ) × (descendents (get_pid svc) ≡ some pids)
            × Totals pids c r
            × (metrics_of env svc ≡ (milliseconds (wrap64 c), wrap64 r)))
  unfolding metrics_of
  metrics_of_whole svc = elim (Option-cases (descendents (get_pid svc))) [
    | inl e ↦ inl (rw (e, metrics_of) refl)
    | inr (pids, e) ↦ elim (total_loop-Totals pids) [
      | inl none_of ↦ inl (rw (e, metrics_of) (rw none_of refl))
      | inr (c, r, h, t) ↦ inr (pids, c, r, e, t, rw (e, metrics_of) (rw h refl))
    ]
  ]
