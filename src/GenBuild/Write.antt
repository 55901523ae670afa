-- ===== src/GenBuild/Write.antt =====
-- The rule names and package tests of go/src/dropbox/build_tools/gen-build-go/lib/genbuildgolib.go.
use dbx_build_tools.Base.{
  ℕ, ◌≡◌, refl, ◌↔◌, Bool, true, false, not, ◌&&◌, ◌||◌, List, [], ◌∷◌, ◌++◌, Str, codes, str_eq,
  str_eq_sym, has, has_prefix, contains_byte, split, ◌==◌, ==_iff, if◌then◌else◌, arith,
}
use dbx_build_tools.GenBuild.Tags.{replace_all, trim_suffix}

-- `isWhitelistedForBuildTags`, on `config.AllowedForBuildTags`.
unfoldable pub is_whitelisted_for_build_tags : Str → List Str → Bool
is_whitelisted_for_build_tags go_pkg_path [] = false
is_whitelisted_for_build_tags go_pkg_path (prefix ∷ prefixes) =
    if has_prefix go_pkg_path prefix
    then true
    else is_whitelisted_for_build_tags go_pkg_path prefixes

-- The first loop of `PathToExtRepoName`, from the last part of the site to the first.
unfoldable pub site_loop : List Str → Str
site_loop [] = []
site_loop (part ∷ parts) = site_loop parts ++ (part ++ codes "_")

-- The second loop, over the other segments.
unfoldable pub segment_loop : Str → List Str → Str
segment_loop result [] = result
segment_loop result (segment ∷ segments) = segment_loop (result ++ (segment ++ codes "_")) segments

-- The result before the major version is added; a split has at least one piece.
unfoldable pub repo_name : List Str → Str
unfolding site_loop segment_loop trim_suffix replace_all
repo_name [] = []
repo_name (site ∷ segments) =
    let result = trim_suffix (segment_loop (site_loop (split site b'.')) segments) (codes "_") in
    replace_all b'~' (codes "_") (
      replace_all b'-' (codes "_")
        (replace_all b' ' (codes "_") (replace_all b'.' (codes "_") result)))

unfoldable pub path_to_ext_repo_name : Str → Str → Str
unfolding repo_name
path_to_ext_repo_name repo_path major_version =
    let result = repo_name (split repo_path b'/') in
    if str_eq major_version [] then result else result ++ (codes "_" ++ major_version)

contains-replace_all :
    (b x : ℕ) (s : Str)
    → contains_byte (replace_all b (codes "_") s) x
      ≡ ((not (x == b) && contains_byte s x) || ((x == b'_') && contains_byte s b))
unfolding replace_all contains_byte
contains-replace_all b x [] = ground arith
contains-replace_all b x (c ∷ s) = ground (
  arith,
  contains-replace_all b x s,
  ==_iff c b,
  ==_iff c x,
  ==_iff x c,
  ==_iff x b,
  ==_iff b'_' x,
  ==_iff x b'_',
)

replaced-clean :
    (s : Str) (b : ℕ)
    → contains_byte (codes ". -~") b ≡ true
    → contains_byte
        (replace_all b'~' (codes "_") (
          replace_all b'-'
            (codes "_")
            (replace_all b' ' (codes "_") (replace_all b'.' (codes "_") s))))
        b
      ≡ false
unfolding contains_byte
replaced-clean s b h =
    let dots = replace_all b'.' (codes "_") s in
    let blanks = replace_all b' ' (codes "_") dots in
    let dashes = replace_all b'-' (codes "_") blanks in
    ground (
      arith,
      h,
      contains-replace_all b'~' b dashes,
      contains-replace_all b'-' b blanks,
      contains-replace_all b' ' b dots,
      contains-replace_all b'.' b s,
      ==_iff b b'~',
      ==_iff b b'-',
      ==_iff b b' ',
      ==_iff b b'.',
      ==_iff b'~' b,
      ==_iff b'-' b,
      ==_iff b' ' b,
      ==_iff b'.' b,
      ==_iff b b'_',
    )

repo_name-clean :
    (segments : List Str) (b : ℕ)
    → contains_byte (codes ". -~") b ≡ true
    → contains_byte (repo_name segments) b ≡ false
unfolding repo_name
repo_name-clean [] b h = unfold contains_byte in refl
repo_name-clean (site ∷ segments) b h =
    replaced-clean (trim_suffix (segment_loop (site_loop (split site b'.')) segments) (codes "_")) b
      h

-- Without a major version, the name of a repository holds no dot, blank, dash or tilde, whatever
-- the path.
path_to_ext_repo_name_clean :
    (repo_path : Str) (b : ℕ)
    → contains_byte (codes ". -~") b ≡ true
    → contains_byte (path_to_ext_repo_name repo_path []) b ≡ false
unfolding path_to_ext_repo_name str_eq
path_to_ext_repo_name_clean repo_path b h = repo_name-clean (split repo_path b'/') b h

-- The loop over the visit stack.
unfoldable pub on_stack : Str → List Str → Bool
on_stack path [] = false
on_stack path (visited ∷ stack) = if str_eq visited path then true else on_stack path stack

-- `ValidateGoPkgPath`, given whether the directory of the package exists.
unfoldable pub validate_go_pkg_path : Bool → Str → List Str → Bool → List Str → Bool
unfolding on_stack
validate_go_pkg_path is_builtin_pkg go_pkg_path processed_pkgs exists visit_stack =
    if is_builtin_pkg
    then false
    else if has go_pkg_path processed_pkgs
    then false
    else if not exists
    then false
    else if on_stack go_pkg_path visit_stack
    then false
    else true

-- `IsBuiltinPkg`, with whether the package can be imported from the Go tree: the answer, and the
-- packages that are known.
unfoldable pub is_builtin_pkg : Str → List Str → Bool → Bool × List Str
is_builtin_pkg pkg_name golang_pkgs imported =
    if str_eq pkg_name (codes "C")
    then (true, golang_pkgs)
    else if has (codes "testdata") (split pkg_name b'/')
    then (true, golang_pkgs)
    else if elim (split pkg_name b'/') [ [] ↦ false | first ∷ _ ↦ contains_byte first b'.' ]
    then (false, golang_pkgs)
    else if has pkg_name golang_pkgs
    then (true, golang_pkgs)
    else if not imported
    then (false, golang_pkgs)
    else (true, pkg_name ∷ golang_pkgs)

on_stack-has : (path : Str) (stack : List Str) → on_stack path stack ≡ has path stack
unfolding on_stack has
on_stack-has path [] = refl
on_stack-has path (visited ∷ stack) =
    ground (arith, on_stack-has path stack, str_eq_sym path visited)

-- A package is processed exactly if it is not built in, was not processed before, exists, and is
-- not being visited.
pub validate_go_pkg_path_iff :
    (builtin exists : Bool) (path : Str) (processed stack : List Str)
    → (validate_go_pkg_path builtin path processed exists stack ≡ true) ↔ (
        (builtin ≡ false)
        × (has path processed ≡ false)
        × (exists ≡ true)
        × (has path stack ≡ false))
unfolding validate_go_pkg_path
validate_go_pkg_path_iff builtin exists path processed stack =
    ground (arith, on_stack-has path stack)
