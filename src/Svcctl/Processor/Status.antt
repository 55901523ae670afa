-- ===== src/Svcctl/Processor/Status.antt =====
-- `Status` and `Diagnostics` of go/src/dropbox/build_tools/svcctl/processor.go, with `getPid`,
-- `getLogsPath`, `readVersionFiles` and `needsRestart` of service.go.

use dbx_build_tools.Base.{
  ℕ, ◌+◌, ◌-◌, ◌/◌, ◌^◌, ltb, ◌≡◌, refl, ap, ◌≢◌, inl, inr, Bool, true, false, not, Option, none,
  some, List, [], ◌∷◌, ◌++◌, map, Memᴰ, Option-cases, Str, codes, str_eq, str_eq_iff, has, lookup,
  domain, lookup-domain, get_elem?, length, ◌==◌, if◌then◌else◌, arith, All,
}
use dbx_build_tools.Base.Result.{Result, ok, err, panic, ◌>>=◌}
use dbx_build_tools.Procfs.Usage.{wrap64}
use dbx_build_tools.Svcctl.Proto.{ServiceType, StatusCode}
use dbx_build_tools.Svcctl.Service.{ServiceDef}
use dbx_build_tools.Svcctl.Processor.{Processor}
use dbx_build_tools.Svcctl.Processor.Create.{names}
use dbx_build_tools.Svcctl.Processor.Start.{IsWellFormed}

-- How a call of `GetVszRssBytes` ends; ESRCH is no failure for the caller.
pub data RssEnd : Type 0 where
  measured esrch : ℕ → RssEnd
  rss_failed : RssEnd

-- What the requests take from Go's packages os, path/filepath and crypto/md5, from the order in which
-- Go walks a map, and from go/src/dropbox/procfs and go/src/dropbox/cputime.
pub record StatusEnv : Type 0 where
  pub getenv : Str → Str
  pub path_join : List Str → Str
  pub read_file : Str → Option Str
  pub md5_sum : Str → List ℕ
  pub map_order : List Str → List Str
  pub descendents : ℕ → Option (List ℕ)
  pub cpu_time : ℕ → Option ℕ
  pub vsz_rss_bytes : ℕ → RssEnd

pub record StatusEntry : Type 0 where
  pub service_name : Str
  pub owner : Str
  pub status_code : StatusCode
  pub needs_restart : Bool
  pub log_file : Str
  pub type : ServiceType
  pub start_duration_ms : ℕ
  -- The sanitizer errors of a failure message of type HAS_RACES.
  pub failure_message : Option (List Str)
  pub pid : ℕ

pub data StatusError : Type 0 where
  unknown_service : Str → StatusError

-- `d / time.Millisecond`, which rounds towards zero, on the 64 bits of `d`.
unfoldable pub milliseconds : ℕ → ℕ
milliseconds d = if ltb d (2 ^ 63) then d / 1000000 else wrap64 (2 ^ 64 - (2 ^ 64 - d) / 1000000)

unfoldable pub get_pid : ServiceDef → ℕ
get_pid svc = elim svc.process [
  | none ↦ 0
  | some process ↦ elim process.pid [ none ↦ 0 | some pid ↦ pid ]
]

-- `strings.TrimLeft(svc.name, "/")`
unfoldable pub trim_left : Str → Str
trim_left [] = []
trim_left (c ∷ s) = let rest = trim_left s in if c == b'/' then rest else c ∷ s

-- The contents of all files, or none if one of them cannot be read.
unfoldable pub read_all : (Str → Option Str) → List Str → Option Str
read_all read [] = some []
read_all read (file ∷ files) = elim (read file) [
  | none ↦ none
  | some content ↦ elim (read_all read files) [ none ↦ none | some rest ↦ some (content ++ rest) ]
]

module _ (env : StatusEnv) where
  open env use {getenv, path_join, md5_sum, descendents, cpu_time, vsz_rss_bytes}

  unfoldable pub get_logs_path : ServiceDef → Result StatusError Str
  unfolding trim_left
  get_logs_path svc =
      let tmp_root = getenv (codes "TEST_TMPDIR") in
      if str_eq tmp_root []
      then panic
      else ok (
          path_join
            (tmp_root ∷ codes "logs/service_logs" ∷ trim_left svc.name ∷ codes "service.log" ∷ []))

  unfoldable pub needs_restart : ServiceDef → Bool
  unfolding read_all
  needs_restart svc =
      if length svc.version_files == 0
      then false
      else elim (read_all env.read_file svc.version_files) [
        | none ↦ false
        | some content ↦ not (str_eq svc.version (md5_sum content))
      ]

  -- The entry of one service, given the path of its log.
  unfoldable pub entry_of : Str → ServiceDef → Str → StatusEntry
  unfolding needs_restart get_pid
  entry_of name svc log = record {
    service_name = name;
    owner = svc.owner;
    status_code = svc.status;
    needs_restart = needs_restart svc;
    log_file = log;
    type = svc.service_type;
    start_duration_ms = svc.start_duration / 1000000;
    failure_message = if length svc.sanitizer_errors == 0 then none else some svc.sanitizer_errors;
    pid = get_pid svc;
  }

  unfoldable pub status_of : Str → ServiceDef → Result StatusError StatusEntry
  unfolding get_logs_path entry_of
  status_of name svc = get_logs_path svc >>= λ log. ok (entry_of name svc log)

  -- The loop of `Status` over the names.
  unfoldable pub status_loop : Processor → List Str → Result StatusError (List StatusEntry)
  unfolding status_of
  status_loop p [] = ok []
  status_loop p (name ∷ wanted) = elim (lookup name p.services) [
    | none ↦ err (unknown_service name)
    | some a ↦ elim (get_elem? p.heap a) [
      | none ↦ panic
      | some svc ↦
          status_of name svc >>= λ entry. status_loop p wanted >>= λ entries. ok (entry ∷ entries)
    ]
  ]

  unfoldable pub status : List Str → Processor → Result StatusError (List StatusEntry)
  unfolding status_loop
  status wanted p = elim wanted [
    | [] ↦ status_loop p (env.map_order (domain p.services))
    | name ∷ rest ↦ status_loop p (name ∷ rest)
  ]

  -- The totals over the descendents of a service, as 64 bits; none stands for `hasErr`.
  unfoldable pub total_loop : List ℕ → Option (ℕ × ℕ)
  total_loop [] = some (0, 0)
  total_loop (pid ∷ pids) =
      let rest = total_loop pids in
      elim (cpu_time pid) [
        | none ↦ none
        | some cpu ↦ elim (vsz_rss_bytes pid) [
          | rss_failed ↦ none
          | measured rss ↦ elim rest [
            | none ↦ none
            | some (c, r) ↦ some (wrap64 (cpu + c), wrap64 (rss + r))
          ]
          | esrch rss ↦ elim rest [
            | none ↦ none
            | some (c, r) ↦ some (wrap64 (cpu + c), wrap64 (rss + r))
          ]
        ]
      ]

  -- `CpuTimeMs` and `RssMb` of one service.
  unfoldable pub metrics_of : ServiceDef → ℕ × ℕ
  unfolding total_loop get_pid milliseconds
  metrics_of svc = elim (descendents (get_pid svc)) [
    | none ↦ (0, 0)
    | some pids ↦ elim (total_loop pids) [
      | none ↦ (0, 0)
      | some (cpu, rss) ↦ (milliseconds cpu, rss)
    ]
  ]

  -- The loop of `Diagnostics` over the names.
  unfoldable pub diagnostics_loop : Processor → List Str → Result StatusError (List (Str × (ℕ × ℕ)))
  unfolding metrics_of
  diagnostics_loop p [] = ok []
  diagnostics_loop p (name ∷ wanted) = elim (lookup name p.services) [
    | none ↦ err (unknown_service name)
    | some a ↦ elim (get_elem? p.heap a) [
      | none ↦ panic
      | some svc ↦ diagnostics_loop p wanted >>= λ rest. ok ((name, metrics_of svc) ∷ rest)
    ]
  ]

  unfoldable pub diagnostics : List Str → Processor → Result StatusError (List (Str × (ℕ × ℕ)))
  unfolding diagnostics_loop
  diagnostics wanted p = elim wanted [
    | [] ↦ diagnostics_loop p (env.map_order (domain p.services))
    | name ∷ rest ↦ diagnostics_loop p (name ∷ rest)
  ]

  -- What an entry says of a processor.
  pub IsEntryOf : Processor → StatusEntry → Type 0
  IsEntryOf p e =
      (a : ℕ) × (d : ServiceDef) × (lookup e.service_name p.services ≡ some a)
      × (get_elem? p.heap a ≡ some d)
      × (d.name ≡ e.service_name)
      × (e.status_code ≡ d.status)
      × (e.pid ≡ get_pid d)

  get_logs_path-ok :
      (d : ServiceDef)
      → getenv (codes "TEST_TMPDIR") ≢ []
      → (log : Str) × (get_logs_path d ≡ ok log)
  unfolding get_logs_path
  get_logs_path-ok d tmp = (_, log_set)
    where
      log_set :
          get_logs_path d
          ≡ ok (
              path_join (
                getenv (codes "TEST_TMPDIR")
                ∷ codes "logs/service_logs"
                ∷ trim_left d.name
                ∷ codes "service.log"
                ∷ []))
      log_set = ground (arith, str_eq_iff (getenv (codes "TEST_TMPDIR")) [], tmp)

  -- In a processor whose services are well-formed, and with $TEST_TMPDIR set, the loop of `Status`
  -- over names of services gives one entry for each name, in the order of the names, with the state
  -- and the process id of the service of that name.
  status_loop_ok :
      (p : Processor) (wanted : List Str)
      → IsWellFormed p
      → getenv (codes "TEST_TMPDIR") ≢ []
      → ((k : Str) → Memᴰ k wanted → has k (names p) ≡ true)
      → (entries : List StatusEntry) × (status_loop p wanted ≡ ok entries)
        × (map (λ e. e.service_name) entries ≡ wanted)
        × All (IsEntryOf p) entries
  unfolding status_loop status_of entry_of IsEntryOf
  status_loop_ok p [] w tmp known = ([], refl, refl, tt)
  status_loop_ok p (name ∷ wanted) w tmp known =
      let (entries, r, n, all) = status_loop_ok p wanted w tmp (λ k m. known k (Memᴰ.tail m)) in
      elim (Option-cases (lookup name p.services)) [
        | inl e ↦ absurd (clash (known name (Memᴰ.head refl)) ((lookup-domain name p.services).0 e))
        | inr (a, e) ↦
            let (d, g, same) = w.at_home name a e in
            let (log, h) = get_logs_path-ok d tmp in
            (
              entry_of name d log ∷ entries,
              rw (e, status_loop) (rw g (rw h (rw r refl))),
              ap (λ (l : List Str). name ∷ l) n,
              ((a, d, e, g, same, refl, refl), all),
            )
      ]
    where
      clash : {b : Bool} → b ≡ true → b ≡ false → ⊥
      clash x y = cc
