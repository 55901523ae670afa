-- ===== src/Svcctl/Fixtures.antt =====
-- An environment and small services for the tests of go/src/dropbox/build_tools/svcctl.
use dbx_build_tools.Base.{true, false, some, none, List, [], ◌∷◌, Str, codes, join}
use dbx_build_tools.Svcctl.Proto.{ServiceType, ServiceProto}
use dbx_build_tools.Svcctl.Service.{ServiceEnv}

abbrev pub env : ServiceEnv
env = record {
  paths = record {
    compiled_standalone = codes "no";
    getenv = λ name. codes "/r";
    clean = λ s. s;
    path_join = λ parts. join parts b'/';
    stat_is_dir = λ s. some true;
  };
  expand_env = λ s. s;
  sort_strings = λ l. l;
  now = 0;
}

abbrev pub service_of : ServiceType → Str → List Str → ServiceProto
service_of kind name deps = record {
  service_name = name;
  launch_cmd = record { cmd = codes "run"; env_vars = [] };
  health_checks = [];
  dependencies = deps;
  stop_cmd = none;
  type = kind;
  verbose = false;
  owner = [];
  version_files = codes "//v" ∷ [];
}
