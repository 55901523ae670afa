-- ===== src/GenBuild/Process.antt =====
-- `ConfigGenerator` of go/src/dropbox/build_tools/gen-build-go/gen-build-go.go: the targets of
-- dependencies, and the order in which `Process` generates the files of a package and of what it
-- needs.
pub mod Once
pub mod Complete
pub mod Ends
mod Tests
use dbx_build_tools.Base.{
  ◌⊎◌, inl, inr, ℕ, zero, suc, ◌+◌, Bool, true, false, not, ◌&&◌, ◌||◌, Option, none, some, List,
  [], ◌∷◌, ◌++◌, map, Str, codes, str_eq, has, has_prefix, lookup, drop, length, if◌then◌else◌,
}
use dbx_build_tools.GenBuild.Uniq.{uniq_sort}
use dbx_build_tools.GenBuild.Write.{is_builtin_pkg, validate_go_pkg_path}

-- What the generator reads of a `build.Package`, with whether it has test files.
pub record Package : Type 0 where
  pub import_path : Str
  pub imports : List Str
  pub test_imports : List Str
  pub x_test_imports : List Str
  pub has_tests : Bool
  pub has_x_tests : Bool

-- What `PopulatePackageInfo` returns: no package with its error, if any, or a package.
pub data Populated (E : Type 0) : Type 0 where
  absent : Option E → Populated E
  found : Package → Populated E

-- The targets that the text of a BUILD file lists.
pub record Config : Type 0 where
  pub deps : List Str
  pub test_deps : Option (List Str)
  pub x_test_deps : Option (List Str)

-- The fields of the generator that do not change, the file system and the Go tree.
pub record GenEnv (E : Type 0) : Type 0 where
  pub go_src : Str
  pub repo_by_import_path : List (Str × Str)
  pub only_gen_pkgs : Option (List Str)
  -- `path.Join(g.moduleName, _)`
  pub join_module : Str → Str
  -- A path, its `path.Dir`, and so on up to the last that is not ".".
  pub dirs : Str → List Str
  pub sort : List Str → List Str
  -- Whether the vendor file of a package path exists, the package can be imported from the Go tree,
  -- and the directory of the package exists.
  pub stat : Str → Bool
  pub imported : Str → Bool
  pub exists : Str → Bool
  pub populate : Str → Populated E
  -- The first error of `PopulateBuildAttributes`, `BuildTagmapForPkg` and `BuildEmbedConfigForPkg`.
  pub attributes : Package → Option E
  pub write_to_build_config_file : Package → Config → Option E
  -- `fmt.Errorf` of `Process`
  pub failed_to_process : Str → E → E

-- The maps that the generator fills, by their keys in the order of insertion, and the stack.
pub record Generator : Type 0 where
  pub golang_pkgs : List Str
  pub processed_pkgs : List Str
  pub visit_stack : List Str

unfoldable pub is_dbx_in_repo_pkg : Str → Bool
is_dbx_in_repo_pkg pkg =
    has_prefix pkg (codes "dropbox/")
    || (has_prefix pkg (codes "godropbox/") || has_prefix pkg (codes "atlas/"))

unfoldable pub is_dbx_pkg : Str → Bool
unfolding is_dbx_in_repo_pkg
is_dbx_pkg pkg = is_dbx_in_repo_pkg pkg || has_prefix pkg (codes "github.com/dropbox")

-- `g.visitStack[:len(g.visitStack)-1]`
abbrev pub drop_last : List Str → List Str
drop_last [] = []
drop_last (x ∷ l) = elim l [ [] ↦ [] | y ∷ m ↦ x ∷ drop_last l ]

module _ {E : Type 0} (env : GenEnv E) where
  open env use {
    go_src, repo_by_import_path, only_gen_pkgs, join_module, dirs, sort, stat, imported, exists,
    populate, attributes, write_to_build_config_file, failed_to_process,
  }

  -- `isBuiltinPkg`: the answer, and `golangPkgs`.
  unfoldable pub is_builtin : Str → List Str → Bool × List Str
  unfolding is_dbx_pkg is_builtin_pkg
  is_builtin pkg golang =
      if is_dbx_pkg pkg then (false, golang) else is_builtin_pkg pkg golang (imported pkg)

  unfoldable pub path_for_in_repo_go_package : Str → Str
  path_for_in_repo_go_package pkg =
      if str_eq go_src [] then codes "go/src/" ++ pkg else go_src ++ (codes "/" ++ pkg)

  unfoldable pub bazel_target_for_in_repo_go_package : Str → Str
  bazel_target_for_in_repo_go_package pkg =
      if str_eq go_src []
      then codes "@dbx_build_tools//go/src/" ++ pkg
      else codes "//" ++ (go_src ++ (codes "/" ++ pkg))

  -- `for dir != "."`
  unfoldable pub dir_loop : Str → List Str → Str
  unfolding path_for_in_repo_go_package bazel_target_for_in_repo_go_package
  dir_loop pkg [] = bazel_target_for_in_repo_go_package pkg
  dir_loop pkg (dir ∷ parents) = elim (lookup dir repo_by_import_path) [
    | some repo ↦
        codes "@"
        ++ (repo
            ++ (codes "//"
                ++ (if str_eq pkg dir then codes ":" ++ repo else drop (length dir + 1) pkg)))
    | none ↦
        if stat (path_for_in_repo_go_package dir ++ codes "/.dbxvendor.json")
        then bazel_target_for_in_repo_go_package pkg
        else dir_loop pkg parents
  ]

  unfoldable pub get_dep_bazel_target : Str → Str
  unfolding dir_loop is_dbx_in_repo_pkg
  get_dep_bazel_target pkg =
      if is_dbx_in_repo_pkg pkg
      then bazel_target_for_in_repo_go_package pkg
      else dir_loop pkg (dirs pkg)

  -- The loop of `createDeps`, with `golangPkgs`.
  unfoldable pub deps_loop : List Str → List Str → List Str → List Str × List Str
  unfolding is_builtin get_dep_bazel_target
  deps_loop [] deps golang = (deps, golang)
  deps_loop (pkg ∷ pkgs) deps golang =
      let (builtin, golang') = is_builtin pkg golang in
      deps_loop pkgs (if builtin then deps else deps ++ get_dep_bazel_target pkg ∷ []) golang'

  unfoldable pub create_deps : List Str → List Str → List Str × List Str
  unfolding deps_loop uniq_sort
  create_deps pkgs golang =
      let (deps, golang') = deps_loop pkgs [] golang in (uniq_sort sort deps, golang')

  -- `createDeps` under a condition.
  unfoldable pub deps_if : Bool → List Str → List Str → List Str × List Str
  unfolding create_deps
  deps_if wanted pkgs golang = if wanted then create_deps pkgs golang else ([], golang)

  -- `generateConfig`: what the text of the file is made of, or an error, and `golangPkgs`.
  unfoldable pub generate_config : Package → List Str → (E ⊎ Config) × List Str
  unfolding create_deps deps_if
  generate_config pkg golang =
      let (deps, golang1) = create_deps pkg.imports golang in
      let tests = is_dbx_pkg pkg.import_path && pkg.has_tests in
      let x_tests = is_dbx_pkg pkg.import_path && pkg.has_x_tests in
      let (test_deps, golang2) = deps_if tests pkg.test_imports golang1 in
      let (x_test_deps, golang3) = deps_if x_tests pkg.x_test_imports golang2 in
      elim (attributes pkg) [
        | some e ↦ (inl e, golang1)
        | none ↦ (
          inr (record {
            deps = deps;
            test_deps = if tests then some (uniq_sort sort (deps ++ test_deps)) else none;
            x_test_deps = if x_tests then some (uniq_sort sort x_test_deps) else none;
          }),
          golang3,
        )
      ]

  unfoldable pub should_generate : Str → Bool
  should_generate dep = elim only_gen_pkgs [ none ↦ true | some pkgs ↦ has dep pkgs ]

  -- `visit`, where the first argument is `process`; `none` means that the fuel ran out.
  unfoldable pub visit_loop :
      (Str → Generator → Option (Option E × Generator))
      → Str
      → List Str
      → Generator
      → Option (Option E × Generator)
  unfolding should_generate
  visit_loop process go_pkg_path [] g = some (none, g)
  visit_loop process go_pkg_path (dep ∷ deps) g =
      let skipped = visit_loop process go_pkg_path deps g in
      if str_eq dep go_pkg_path || not (should_generate dep)
      then skipped
      else elim (process dep g) [
        | none ↦ none
        | some (some e, g') ↦ some (some (failed_to_process dep e), g')
        | some (none, g') ↦ visit_loop process go_pkg_path deps g'
      ]

  -- The end of `process`: the file is generated and written.
  unfoldable pub finish : Str → Package → Generator → Option E × Generator
  unfolding generate_config
  finish go_pkg_path pkg g =
      let (result, golang) = generate_config pkg g.golang_pkgs in
      let g' = record g { golang_pkgs = golang } in
      elim result [
        | inl e ↦ (some e, g')
        | inr config ↦ elim (write_to_build_config_file pkg config) [
          | some e ↦ (some e, g')
          | none ↦ (none, record g' { processed_pkgs = g'.processed_pkgs ++ go_pkg_path ∷ [] })
        ]
      ]

  -- `process` between the change of the stack and its undoing.
  unfoldable pub visited :
      (Str → Generator → Option (Option E × Generator))
      → Str
      → Generator
      → Option (Option E × Generator)
  unfolding visit_loop finish
  visited process go_pkg_path g = elim (populate go_pkg_path) [
    | absent e ↦ some (e, g)
    | found pkg ↦ elim (visit_loop process go_pkg_path pkg.imports g) [
      | none ↦ none
      | some (some e, g1) ↦ some (some e, g1)
      | some (none, g1) ↦
          elim (visit_loop process go_pkg_path
            (if is_dbx_pkg go_pkg_path then pkg.test_imports else []) g1) [
              | none ↦ none
              | some (some e, g2) ↦ some (some e, g2)
              | some (none, g2) ↦ some (finish go_pkg_path pkg g2)
            ]
    ]
  ]

  unfoldable pub process : ℕ → Str → Generator → Option (Option E × Generator)
  unfolding visited is_builtin validate_go_pkg_path
  process zero go_pkg_path g = none
  process (suc fuel) go_pkg_path g =
      let (builtin, golang) = is_builtin (join_module go_pkg_path) g.golang_pkgs in
      let g1 = record g { golang_pkgs = golang } in
      let pushed = record g1 { visit_stack = g1.visit_stack ++ go_pkg_path ∷ [] } in
      let valid =
        validate_go_pkg_path builtin go_pkg_path g1.processed_pkgs (exists go_pkg_path)
          g1.visit_stack in
      let run = visited (process fuel) go_pkg_path pushed in
      if not valid then some (none, g1) else elim run [
        | none ↦ none
        | some (e, g2) ↦ some (e, record g2 { visit_stack = drop_last g2.visit_stack })
      ]
