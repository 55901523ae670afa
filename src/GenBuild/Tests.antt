-- ===== src/GenBuild/Tests.antt =====
-- Targets, tags and package paths, for go/src/dropbox/build_tools/gen-build-go/lib.
use dbx_build_tools.Base.{◌≡◌, ◌↔◌, ◌⊎◌, refl, none, List, [], ◌∷◌, Str, codes, has_prefix, has}
use dbx_build_tools.Base.Result.{panic}
use dbx_build_tools.GenBuild.Text.{EmbedConfig, Target, TagMap, write_target, lookup-write_target}
use dbx_build_tools.GenBuild.Attributes.{GenBuildConfig, link_loop}
use dbx_build_tools.Base.Result.{ok}
use dbx_build_tools.Base.{str_eq}
use dbx_build_tools.Base.{lookup, if◌then◌else◌}
use dbx_build_tools.GenBuild.Tags.{is_old_build_tag, convert_build_directive, convert_panics}

abbrev twice : List Str
twice = codes "b" ∷ codes "a" ∷ codes "b" ∷ []

convert_panics_example :
    (convert_build_directive (codes "//+build") ≡ panic)
    ↔ ((codes "//+build" ≡ codes "// +build") ⊎ (codes "//+build" ≡ codes "//+build"))
unfolding is_old_build_tag has_prefix
convert_panics_example = convert_panics (codes "//+build") refl

abbrev tag_map : List (Str × List Str)
tag_map = (codes "a.go", codes "go1.4" ∷ []) ∷ (codes "b.go", codes "go1.5" ∷ []) ∷ []

abbrev no_files : EmbedConfig
no_files = record { patterns = []; files = []; srcs = [] }

abbrev library : Target
library = record {
  rule = codes "dbx_go_library";
  name = codes "p";
  pkg_path = codes "dropbox/p";
  srcs = codes "a.go" ∷ [];
  deps = [];
  cgo_srcs = [];
  cgo_deps = [];
  cgo_include_flags = [];
  cgo_linker_flags = [];
  cgo_cxx_flags = [];
  module_name = [];
  ecw = record { ec = no_files; test_ec = no_files };
}

abbrev tagged : TagMap
tagged = (codes "a.go", codes "linux" ∷ []) ∷ (codes "a_test.go", codes "race" ∷ []) ∷ []

-- The tags of the test file are lost.
lookup-write_target_example :
    lookup (codes "a_test.go") (write_target (λ s. s) (λ p. []) library tagged).1
    ≡ (if has (codes "a_test.go") library.srcs then lookup (codes "a_test.go") tagged else none)
lookup-write_target_example =
    lookup-write_target (λ s. s) (λ p. []) library tagged (codes "a_test.go") refl

abbrev linking : GenBuildConfig
linking = record {
  linker_info =
      (codes "z", record { lib_flags = codes "-lz" ∷ []; deps = codes "//zlib" ∷ [] }) ∷ [];
  allowed_linker_modules = codes "m" ∷ [];
}

-- A module with its own flags is linked once, and -L is ignored.
link_run :
    link_loop {E = Str} linking
      (codes "-lz" ∷ codes "-L/x" ∷ codes "-lm" ∷ codes "-lz" ∷ [])
      (record { unique = []; flags = []; cgo_deps = [] })
    ≡ ok (record {
      unique = codes "z" ∷ [];
      flags = codes "-lz" ∷ codes "-lm" ∷ [];
      cgo_deps = codes "//zlib" ∷ [];
    })
unfolding link_loop has_prefix lookup str_eq has
link_run = refl
