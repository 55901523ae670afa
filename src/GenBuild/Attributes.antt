-- ===== src/GenBuild/Attributes.antt =====
-- `PopulateBuildAttributes` of go/src/dropbox/build_tools/gen-build-go/lib/genbuildgolib.go.
use dbx_build_tools.Base.{
  not, none, some, List, [], ◌∷◌, ◌++◌, Str, codes, has, has_prefix, lookup, drop, is_nil,
  if◌then◌else◌,
}
use dbx_build_tools.Base.Result.{Result, ok, err, panic, ◌>>=◌}
use dbx_build_tools.GenBuild.Uniq.{uniq_sort}

-- The files and flags of a `build.Package`.
pub record PackageFiles : Type 0 where
  pub go_files : List Str
  pub cgo_files : List Str
  pub c_files : List Str
  pub cxx_files : List Str
  pub h_files : List Str
  pub s_files : List Str
  pub syso_files : List Str
  pub cgo_cflags : List Str
  pub cgo_cxxflags : List Str
  pub cgo_ldflags : List Str

pub record LinkerInfo : Type 0 where
  pub lib_flags : List Str
  pub deps : List Str

pub record GenBuildConfig : Type 0 where
  pub linker_info : List (Str × LinkerInfo)
  pub allowed_linker_modules : List Str

pub data AttributeError (E : Type 0) : Type 0 where
  non_whitelisted_module unknown_flag : Str → AttributeError E
  no_rule_name : E → AttributeError E

pub record Attributes : Type 0 where
  pub cgo_include_flags : List Str
  pub cgo_cxx_flags : List Str
  pub cgo_linker_flags : List Str
  pub cgo_deps : List Str
  pub srcs : List Str
  pub cgo_srcs : List Str
  pub name : Str

-- The loop over `pkg.CgoCFLAGS`.
unfoldable pub include_flags : List Str → List Str
include_flags [] = []
include_flags (cflag ∷ cflags) =
    let rest = include_flags cflags in
    if not (has_prefix cflag (codes "-I")) then cflag ∷ rest else rest

-- `uniqueSpecialLd`, `cgoLinkerFlags` and `cgoDeps`.
pub record Linking : Type 0 where
  pub unique : List Str
  pub flags : List Str
  pub cgo_deps : List Str

module _ {E : Type 0} (config : GenBuildConfig) where
  open config use {linker_info, allowed_linker_modules}

  -- One flag `-l` of a module.
  unfoldable pub link_module : Str → Linking → Result (AttributeError E) Linking
  link_module ldflag l = elim (lookup ldflag linker_info) [
    | some info ↦
        if has ldflag l.unique
        then ok l
        else ok (record {
          unique = ldflag ∷ l.unique;
          flags = l.flags ++ info.lib_flags;
          cgo_deps = l.cgo_deps ++ info.deps;
        })
    | none ↦
        if has ldflag allowed_linker_modules
        then ok (record l { flags = l.flags ++ (codes "-l" ++ ldflag) ∷ [] })
        else err (non_whitelisted_module ldflag)
  ]

  unfoldable pub link_flag : Str → Linking → Result (AttributeError E) Linking
  unfolding link_module
  link_flag ldflag l =
      if has_prefix ldflag (codes "-l")
      then link_module (drop 2 ldflag) l
      else if has_prefix ldflag (codes "-L")
      then ok l
      else if has_prefix ldflag (codes "-W")
      then ok (record l { flags = l.flags ++ ldflag ∷ [] })
      else err (unknown_flag ldflag)

  -- The loop over `pkg.CgoLDFLAGS`.
  unfoldable pub link_loop : List Str → Linking → Result (AttributeError E) Linking
  unfolding link_flag
  link_loop [] l = ok l
  link_loop (ldflag ∷ ldflags) l = link_flag ldflag l >>= link_loop ldflags

  -- `PopulateBuildAttributes`, with the order of `UniqSort` and what `getRuleName` returns.
  unfoldable pub populate_build_attributes :
      (List Str → List Str) → Result E Str → PackageFiles → Result (AttributeError E) Attributes
  unfolding include_flags link_loop uniq_sort
  populate_build_attributes sort rule_name pkg =
      let no_cgo = is_nil pkg.cgo_files in
      let start : Linking = record { unique = []; flags = []; cgo_deps = [] } in
      (if no_cgo then ok start else link_loop pkg.cgo_ldflags start) >>= λ l. elim rule_name [
        | ok name ↦ ok (record {
          cgo_include_flags = if no_cgo then [] else include_flags pkg.cgo_cflags;
          cgo_cxx_flags = if no_cgo then [] else pkg.cgo_cxxflags;
          cgo_linker_flags = l.flags;
          cgo_deps = uniq_sort sort l.cgo_deps;
          srcs = uniq_sort sort (pkg.go_files ++ pkg.syso_files);
          cgo_srcs =
              uniq_sort sort
                (pkg.cgo_files ++ (pkg.c_files ++ (pkg.cxx_files ++ (pkg.h_files ++ pkg.s_files))));
          name = name;
        })
        | err e ↦ err (no_rule_name e)
        | panic ↦ panic
      ]
