-- ===== src/Svcctl/Service.antt =====
-- `serviceDef` and `NewService` of go/src/dropbox/build_tools/svcctl/service.go. A `*serviceDef` is
-- its address in the list of all services that were made.
use mathlib.Core.Option
use dbx_build_tools.Base.{ℕ, Bool, Option, none, some, List, [], ◌∷◌, ◌++◌, map, Str, codes, lookup}
use dbx_build_tools.Base.Result.{Result, ok, err, panic, ◌>>=◌}
use dbx_build_tools.Runfiles.{PathEnv, PathError, data_path}
use dbx_build_tools.Svcctl.Proto.{
  CommandProto, unknown, command, http, HealthCheck, ServiceType, StatusCode, stopped, ServiceProto,
}

-- What `NewService` takes from Go's packages os, sort and time.
pub record ServiceEnv : Type 0 where
  pub paths : PathEnv
  pub expand_env : Str → Str
  pub sort_strings : List Str → List Str
  pub now : ℕ

pub record Command : Type 0 where
  pub cmd : Str
  pub env_vars : List Str

-- A `proc.Pcmd`: the process id once it was started.
pub record Process : Type 0 where
  pub pid : Option ℕ

-- The channel `waitCh`: nil, made, or closed.
pub data WaitCh : Type 0 where
  no_channel opened closed : WaitCh

pub record ServiceDef : Type 0 where
  pub dependents : List ℕ
  pub launch_cmd : Command
  pub stop_cmd : Option Command
  pub service_type : ServiceType
  pub status : StatusCode
  pub name : Str
  pub owner : Str
  pub verbose : Bool
  pub version : List ℕ
  pub version_files : List Str
  pub wait_ch : WaitCh
  pub http_health_checks : List (Option Str)
  pub verify_cmds : List Command
  pub process : Option Process
  pub start_time : ℕ
  pub start_duration : ℕ
  pub stop_time : ℕ
  pub stop_duration : ℕ
  pub sanitizer_errors : List Str

pub data CreateError : Type 0 where
  duplicate_name : CreateError
  undeclared_dependency : Str → CreateError
  unsupported_health_check : CreateError
  bad_version_file : Str → PathError → CreateError

unfoldable pub command_from_proto : ServiceEnv → CommandProto → Command
command_from_proto env proto_cmd = record {
  cmd = proto_cmd.cmd;
  env_vars =
      (codes "TEST_TMPDIR=" ++ env.paths.getenv (codes "TEST_TMPDIR"))
      ∷ (codes "RUNFILES=" ++ env.paths.getenv (codes "RUNFILES"))
      ∷ (codes "HOME=" ++ env.paths.getenv (codes "HOME"))
      ∷ map (λ (key, value). key ++ codes "=" ++ env.expand_env value) proto_cmd.env_vars;
}

-- The loop over `svc.GetDependencies()`.
unfoldable pub resolve : List (Str × ℕ) → List Str → Result CreateError (List ℕ)
resolve services [] = ok []
resolve services (dep_name ∷ names) = elim (lookup dep_name services) [
  | none ↦ err (undeclared_dependency dep_name)
  | some dep ↦ resolve services names >>= λ deps. ok (dep ∷ deps)
]

-- The loop over `svc.HealthChecks`: the commands and the HTTP checks. `CommandFromProto` reads
-- through the pointer that `GetCmd` gives, nil or not.
unfoldable pub sort_checks :
    ServiceEnv → List HealthCheck → Result CreateError (List Command × List (Option Str))
unfolding command_from_proto
sort_checks env [] = ok ([], [])
sort_checks env (hc ∷ hcs) =
    let rest = sort_checks env hcs in
    elim hc.type [
      | command ↦ elim hc.cmd [
        | none ↦ panic
        | some cmd ↦ rest >>= λ (cmds, https). ok (command_from_proto env cmd ∷ cmds, https)
      ]
      | http ↦ rest >>= λ (cmds, https). ok (cmds, hc.http_health_check ∷ https)
      | unknown ↦ err unsupported_health_check
    ]

-- The loop over `svc.VersionFiles`.
unfoldable pub full_paths : PathEnv → List Str → Result CreateError (List Str)
full_paths env [] = ok []
full_paths env (file ∷ files) = elim (data_path env file) [
  | ok full ↦ full_paths env files >>= λ fulls. ok (full ∷ fulls)
  | err e ↦ err (bad_version_file file e)
  | panic ↦ panic
]

-- The fields of the new `serviceDef`.
unfoldable pub service_def :
    ServiceEnv
    → ServiceProto
    → Bool
    → List ℕ
    → List Command × List (Option Str)
    → List Str
    → ServiceDef
unfolding command_from_proto
service_def env svc verbose dependents checks version_files = record {
  dependents = dependents;
  launch_cmd = command_from_proto env svc.launch_cmd;
  stop_cmd = Option.map (command_from_proto env) svc.stop_cmd;
  service_type = svc.type;
  status = stopped;
  name = svc.service_name;
  owner = svc.owner;
  verbose = verbose;
  version = [];
  version_files = env.sort_strings version_files;
  wait_ch = no_channel;
  http_health_checks = checks.1;
  verify_cmds = checks.0;
  process = none;
  start_time = env.now;
  start_duration = 0;
  stop_time = 0;
  stop_duration = 0;
  sanitizer_errors = [];
}

unfoldable pub new_service :
    ServiceEnv → ServiceProto → List (Str × ℕ) → Bool → Result CreateError ServiceDef
unfolding service_def
new_service env svc services verbose = do
  dependents ← resolve services svc.dependencies
  checks ← sort_checks env svc.health_checks
  version_files ← full_paths env.paths svc.version_files
  ok (service_def env svc verbose dependents checks version_files)
