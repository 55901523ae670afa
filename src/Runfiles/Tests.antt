-- ===== src/Runfiles/Tests.antt =====
-- Paths of a small runfiles tree, for go/src/dropbox/runfiles/runfiles.go.
use dbx_build_tools.Base.{
  ◌≡◌, refl, true, some, codes, str_eq, has_prefix, contains_byte, split, join,
}
use dbx_build_tools.Base.Result.{ok}
use dbx_build_tools.Runfiles.{PathEnv, has_relative, validate_repo_path, data_path}

abbrev tree : PathEnv
tree = record {
  compiled_standalone = codes "no";
  getenv = λ name. codes "/r";
  clean = λ s. s;
  path_join = λ names. join names b'/';
  stat_is_dir = λ s. some true;
}

data_path_runs : data_path tree (codes "//a/b") ≡ ok (codes "/r/a/b")
unfolding data_path validate_repo_path has_relative has_prefix contains_byte split join str_eq
data_path_runs = refl
