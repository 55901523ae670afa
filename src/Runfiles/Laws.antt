-- ===== src/Runfiles/Laws.antt =====
-- Valid paths and their files in go/src/dropbox/runfiles/runfiles.go.
use dbx_build_tools.Base.{
  ◌≡◌, refl, ◌↔◌, ◌≢◌, ◌⊎◌, true, false, List, [], ◌∷◌, Str, codes, str_eq_iff, has, has_prefix,
  contains_byte, split, drop, arith, if◌then◌else◌,
}
use dbx_build_tools.Base.Result.{ok, panic}
use dbx_build_tools.Runfiles.{PathEnv, has_relative, is_bazel_path, data_path}

has_relative_iff :
    (names : List Str)
    → (has_relative names ≡ false)
      ↔ ((has (codes ".") names ≡ false) × (has (codes "..") names ≡ false))
unfolding has_relative has
has_relative_iff [] = (λ _. (refl, refl), λ _. refl)
has_relative_iff (name ∷ names) = ground (
  arith,
  has_relative_iff names,
  str_eq_iff name (codes "."),
  str_eq_iff (codes ".") name,
  str_eq_iff name (codes ".."),
  str_eq_iff (codes "..") name,
)

-- A path is valid exactly if it starts with `//` or `@`, has no colon, and none of its components
-- is `.` or `..`.
is_bazel_path_iff :
    (s : Str)
    → (is_bazel_path s ≡ true) ↔ (
        ((has_prefix s (codes "//") ≡ true) ⊎ (has_prefix s (codes "@") ≡ true))
        × (contains_byte s b':' ≡ false)
        × (has (codes ".") (split s b'/') ≡ false)
        × (has (codes "..") (split s b'/') ≡ false))
unfolding is_bazel_path
is_bazel_path_iff s = ground (arith, has_relative_iff (split s b'/'))

-- Where a valid path lies in a runfiles tree.
abbrev pub resolved : PathEnv → Str → Str
resolved env s =
    if has_prefix s (codes "@")
    then env.clean (env.path_join (env.getenv (codes "RUNFILES") ∷ codes ".." ∷ drop 1 s ∷ []))
    else env.path_join (env.getenv (codes "RUNFILES") ∷ drop 2 s ∷ [])

-- A path resolves exactly if the binary is not standalone, the path is valid and $RUNFILES is set,
-- and then to its place in the runfiles tree; in all other cases there is an error, never a panic.
data_path_iff :
    (env : PathEnv) (s r : Str)
    → ((data_path env s ≡ ok r) ↔ (
        (env.compiled_standalone ≢ codes "yes")
        × (is_bazel_path s ≡ true)
        × (env.getenv (codes "RUNFILES") ≢ [])
        × (r ≡ resolved env s)))
      × (data_path env s ≢ panic)
unfolding data_path is_bazel_path
data_path_iff env s r = ground (
  arith,
  str_eq_iff env.compiled_standalone (codes "yes"),
  str_eq_iff (env.getenv (codes "RUNFILES")) [],
)
