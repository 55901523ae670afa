-- ===== src/Runfiles.antt =====
-- go/src/dropbox/runfiles/runfiles.go: absolute Bazel paths and the files that they stand for.
pub mod Laws
mod Tests
use dbx_build_tools.Base.{
  Bool, true, false, not, ◌&&◌, ◌||◌, Option, none, some, List, [], ◌∷◌, ◌++◌, Str, codes, str_eq,
  has, has_prefix, contains_byte, split, drop, length, ltb, if◌then◌else◌,
}
use dbx_build_tools.Base.Result.{Result, ok, err, panic}

pub data PathError : Type 0 where
  bad_path bazel_target relative_path env_not_set standalone no_config_runfiles no_stat : PathError

-- What the package takes from Go's packages os, path and path/filepath and from the build.
pub record PathEnv : Type 0 where
  pub compiled_standalone : Str
  pub getenv : Str → Str
  pub clean : Str → Str
  pub path_join : List Str → Str
  -- `os.Stat`: none for an error, else whether it is a directory.
  pub stat_is_dir : Str → Option Bool

-- The loop over the components of the path.
unfoldable pub has_relative : List Str → Bool
has_relative [] = false
has_relative (name ∷ names) =
    str_eq name (codes ".") || str_eq name (codes "..") || has_relative names

-- `none` is the nil error.
unfoldable pub validate_repo_path : Str → Option PathError
unfolding has_relative
validate_repo_path repo_path =
    if not (has_prefix repo_path (codes "//") || has_prefix repo_path (codes "@"))
    then some bad_path
    else if contains_byte repo_path b':'
    then some bazel_target
    else if has_relative (split repo_path b'/')
    then some relative_path
    else none

unfoldable pub is_bazel_path : Str → Bool
unfolding validate_repo_path
is_bazel_path repo_path = elim (validate_repo_path repo_path) [ none ↦ true | some _ ↦ false ]

unfoldable pub data_path : PathEnv → Str → Result PathError Str
unfolding validate_repo_path
data_path env repo_path =
    if str_eq env.compiled_standalone (codes "yes")
    then err standalone
    else elim (validate_repo_path repo_path) [
      | some e ↦ err e
      | none ↦
          let runfiles_dir = env.getenv (codes "RUNFILES") in
          if str_eq runfiles_dir []
          then err env_not_set
          else if has_prefix repo_path (codes "@")
          then ok (env.clean (env.path_join (runfiles_dir ∷ codes ".." ∷ drop 1 repo_path ∷ [])))
          else ok (env.path_join (runfiles_dir ∷ drop 2 repo_path ∷ []))
    ]

unfoldable pub folder_path : PathEnv → Result PathError Str
unfolding data_path
folder_path env = data_path env (codes "@")

unfoldable pub must_data_path : PathEnv → Str → Result PathError Str
unfolding data_path
must_data_path env repo_path = elim (data_path env repo_path) [ ok r ↦ ok r | _ ↦ panic ]

unfoldable pub config_data_path : PathEnv → Str → Str → Result PathError Str
unfolding validate_repo_path
config_data_path env repo_path external_config_path = elim (validate_repo_path repo_path) [
  | some e ↦ err e
  | none ↦
      let runfiles_dir = external_config_path ++ codes ".runfiles" in
      elim (env.stat_is_dir runfiles_dir) [
        | none ↦ err no_stat
        | some is_dir ↦
            if not is_dir
            then err no_config_runfiles
            -- `repoPath[2:]` is out of range for a path of one byte.
            else if ltb (length repo_path) 2
            then panic
            else ok (env.path_join (runfiles_dir ∷ codes "__main__" ∷ drop 2 repo_path ∷ []))
      ]
]

unfoldable pub must_config_data_path : PathEnv → Str → Str → Result PathError Str
unfolding config_data_path
must_config_data_path env repo_path external_config_path =
    elim (config_data_path env repo_path external_config_path) [ ok r ↦ ok r | _ ↦ panic ]
