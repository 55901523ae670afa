-- ===== src/Svcctl/Processor/Tests.antt =====
-- The reports of go/src/dropbox/build_tools/svcctl/processor.go on one service.

use dbx_build_tools.Base.{get_elem?, str_eq_iff, sym, ap, subst, ◌∙◌, ◌<◌, arith}
use dbx_build_tools.Base.{
  ℕ, zero, suc, ◌≡◌, refl, ◌⊎◌, false, some, List, [], ◌∷◌, Memᴰ, not-Memᴰ-nil, codes, str_eq,
  lookup, join,
}
use dbx_build_tools.Svcctl.Proto.{daemon}
use dbx_build_tools.Svcctl.Service.{ServiceDef, service_def}
use dbx_build_tools.Svcctl.Fixtures.{env, service_of}
use dbx_build_tools.Svcctl.Processor.{Processor}
use dbx_build_tools.Svcctl.Processor.Start.{IsWellFormed}
use dbx_build_tools.Svcctl.Processor.Status.{StatusEnv, measured, get_pid, metrics_of, milliseconds}
use dbx_build_tools.Procfs.Usage.{wrap64}
use dbx_build_tools.Svcctl.Processor.Metrics.{Totals, metrics_of_whole}

abbrev status_env : StatusEnv
status_env = record {
  getenv = λ name. codes "/tmp";
  path_join = λ parts. join parts b'/';
  read_file = λ file. some [];
  md5_sum = λ content. content;
  map_order = λ l. l;
  descendents = λ pid. some (pid ∷ []);
  cpu_time = λ pid. some 5000000;
  vsz_rss_bytes = λ pid. measured 7;
}

abbrev db_def : ServiceDef
db_def = service_def env (service_of daemon (codes "db") []) false [] ([], []) []

abbrev one : Processor
one = record { heap = db_def ∷ []; services = (codes "db", 0) ∷ []; readers = 0; verbose = false }

one-IsWellFormed : IsWellFormed one
unfolding lookup service_def str_eq
one-IsWellFormed = record {
  at_home = λ k a h.
      let named : k ≡ codes "db" = ground (arith, h, str_eq_iff k (codes "db")) in
      let first : 0 ≡ a = ground (arith, h, str_eq_iff k (codes "db")) in
      (db_def, subst (λ n. get_elem? (db_def ∷ []) n ≡ some db_def) first refl, sym named);
  known = known_lem;
  older = older_lem;
}
  where
    known_lem :
        (a : ℕ) (d : ServiceDef)
        → get_elem? (db_def ∷ []) a ≡ some d
        → lookup d.name ((codes "db", 0) ∷ []) ≡ some a
    known_lem zero d h = ap (λ (x : ServiceDef). lookup x.name one.services) (sym (same h)) ∙ refl
      where
        same : {x y : ServiceDef} → some x ≡ some y → x ≡ y
        same e = cc
    known_lem (suc a) d h = absurd (cc)

    older_lem :
        (a b : ℕ) (d : ServiceDef)
        → get_elem? (db_def ∷ []) a ≡ some d
        → Memᴰ b d.dependents
        → b < a
    older_lem zero b d h m =
        absurd (not-Memᴰ-nil (subst (λ (x : ServiceDef). Memᴰ b x.dependents) (sym (same h)) m))
      where
        same : {x y : ServiceDef} → some x ≡ some y → x ≡ y
        same e = cc
    older_lem (suc a) b d h m = absurd (cc)

metrics_of_whole_example :
    (metrics_of status_env db_def ≡ (0, 0))
    ⊎ ((pids : List ℕ) × (c : ℕ) × (r : ℕ) × (status_env.descendents (get_pid db_def) ≡ some pids)
        × Totals status_env pids c r
        × (metrics_of status_env db_def ≡ (milliseconds (wrap64 c), wrap64 r)))
metrics_of_whole_example = metrics_of_whole status_env db_def
