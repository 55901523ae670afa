-- ===== src/GenBuild/Text.antt =====
-- The text of a target in a BUILD file: `writeTarget` of
-- go/src/dropbox/build_tools/gen-build-go/gen-build-go.go, and what it calls of lib/genbuildgolib.go,
-- lib/utils.go, lib/tagmap.go and lib/embed.go.
use dbx_build_tools.Base.{
  ℕ, ◌≡◌, refl, ap, ◌∙◌, Bool, true, false, not, ◌&&◌, ◌||◌, Option, none, some, List, [], ◌∷◌,
  ◌++◌, Str, codes, str_eq, has, has_prefix, split, lookup, domain, sort_strings, is_nil, ◌==◌,
  if◌then◌else◌, arith,
}
use dbx_build_tools.GenBuild.Tags.{replace_all, trim_suffix, keep_entries, lookup-keep_entries}

-- `strings.Join` with a separator of several bytes.
unfoldable pub join_with : Str → List Str → Str
join_with sep [] = []
join_with sep (s ∷ l) = elim l [ [] ↦ s | t ∷ m ↦ s ++ (sep ++ join_with sep l) ]

unfoldable pub elements : List Str → Str
elements [] = []
elements (element ∷ lst) = codes "'" ++ (element ++ (codes "',\n" ++ elements lst))

unfoldable pub write_list_to_build : Str → List Str → Bool → Str
unfolding elements
write_list_to_build attribute_name lst write_if_empty =
    if is_nil lst && not write_if_empty
    then []
    else attribute_name ++ (codes " = [\n" ++ (elements lst ++ codes "],\n"))

abbrev pub TagMap : Type 0
TagMap = List (Str × List Str)

abbrev pub onto_first : ℕ → List Str → List Str
onto_first c [] = (c ∷ []) ∷ []
onto_first c (s ∷ l) = (c ∷ s) ∷ l

-- `strings.Split` at "&&".
unfoldable pub split_and : Str → List Str
split_and [] = [] ∷ []
split_and (c ∷ []) = (c ∷ []) ∷ []
split_and (c ∷ d ∷ s) = elim ((c == b'&') && (d == b'&')) [
  | true ↦ [] ∷ split_and s
  | false ↦ onto_first c (split_and (d ∷ s))
]

-- The loop over the tags of a file: `flattenedBT`.
unfoldable pub flatten_tags : List Str → List Str
unfolding split_and
flatten_tags [] = []
flatten_tags (bt ∷ tags) = split_and (replace_all b' ' [] bt) ++ flatten_tags tags

-- The loop over the file names.
unfoldable pub tag_entries : TagMap → List Str → Str
unfolding flatten_tags join_with
tag_entries tm [] = []
tag_entries tm (filename ∷ keys) =
    let tags : List Str = elim (lookup filename tm) [ none ↦ [] | some l ↦ l ] in
    codes "\""
    ++ (filename
        ++ (codes "\":[\""
            ++ (join_with (codes "\",\"") (flatten_tags tags)
                ++ (codes "\"]," ++ tag_entries tm keys))))

unfoldable pub write_tag_map : TagMap → Str
unfolding tag_entries
write_tag_map tm =
    if is_nil (domain tm)
    then []
    else codes "tagmap={" ++ (tag_entries tm (sort_strings (domain tm)) ++ codes "},\n")

pub record EmbedConfig : Type 0 where
  pub patterns : List (Str × List Str)
  pub files : List (Str × Str)
  pub srcs : List Str

pub record EmbedConfigWrapper : Type 0 where
  pub ec : EmbedConfig
  pub test_ec : EmbedConfig

unfoldable pub pattern_entries : List (Str × List Str) → List Str → List Str
unfolding join_with
pattern_entries patterns [] = []
pattern_entries patterns (key ∷ keys) =
    let l : List Str = elim (lookup key patterns) [ none ↦ [] | some l ↦ l ] in
    (codes "\""
      ++ (key ++ (codes "\":" ++ (codes "[\"" ++ (join_with (codes "\",\"") l ++ codes "\"]")))))
    ∷ pattern_entries patterns keys

unfoldable pub file_entries : List (Str × Str) → List Str → List Str
file_entries files [] = []
file_entries files (key ∷ keys) =
    let file : Str = elim (lookup key files) [ none ↦ [] | some f ↦ f ] in
    (codes "\"" ++ (key ++ (codes "\":" ++ (codes "\"" ++ (file ++ codes "\"")))))
    ∷ file_entries files keys

unfoldable pub marshal_json : EmbedConfig → Str
unfolding pattern_entries file_entries join_with
marshal_json ec =
    codes "{\"Patterns\":{"
    ++ (join_with (codes ",") (pattern_entries ec.patterns (sort_strings (domain ec.patterns)))
        ++ (codes "},\"Files\":{"
            ++ (join_with (codes ",") (file_entries ec.files (sort_strings (domain ec.files)))
                ++ codes "}}")))

-- The arguments of `writeTarget` but for the buffer and the tag map.
pub record Target : Type 0 where
  pub rule : Str
  pub name : Str
  pub pkg_path : Str
  pub srcs : List Str
  pub deps : List Str
  pub cgo_srcs : List Str
  pub cgo_deps : List Str
  pub cgo_include_flags : List Str
  pub cgo_linker_flags : List Str
  pub cgo_cxx_flags : List Str
  pub module_name : Str
  pub ecw : EmbedConfigWrapper

abbrev pub visible : Str → Str
visible packages = codes "    '" ++ (packages ++ codes "',\n")

-- The text that json.MarshalIndent makes of an encoding; and the parents and last components that
-- path.Split and filepath.Clean give in turn, from a whole package path up to ".".
module _ (indent : Str → Str) (parents : Str → List (Str × Str)) where
  unfoldable pub write_embed_config : EmbedConfig → Str
  unfolding marshal_json
  write_embed_config ec =
      if is_nil (domain ec.files) || is_nil (domain ec.patterns)
      then []
      else codes "embed_config=\"\"\"" ++ (indent (marshal_json ec) ++ codes "\"\"\",")

  -- `WriteToBUILD`
  unfoldable pub write_to_build : EmbedConfigWrapper → Str → Str
  unfolding write_embed_config write_list_to_build
  write_to_build ecw name =
      let is_test = not (str_eq (trim_suffix name (codes "_test")) name) in
      let none_used : EmbedConfig = record { patterns = []; files = []; srcs = [] } in
      let used =
        if is_test && not (is_nil (domain ecw.test_ec.files))
        then ecw.test_ec
        else if not (is_nil (domain ecw.ec.files))
        then ecw.ec
        else none_used in
      write_embed_config used ++ write_list_to_build (codes "data") used.srcs false

  -- `WriteCommonBuildAttrToTarget`: the text, and the tag map, of which entries are deleted.
  unfoldable pub write_common : Target → TagMap → Str × TagMap
  unfolding write_to_build write_tag_map keep_entries
  write_common t tm =
      let kept = keep_entries tm t.srcs in
      (
        t.rule
            ++ (codes "(\n  name = '"
                ++ (t.name
                    ++ (codes "',\n"
                        ++ (write_list_to_build (codes "srcs") t.srcs true
                            ++ (write_list_to_build (codes "cdeps") t.cgo_deps false
                                ++ (write_list_to_build (codes "cgo_srcs") t.cgo_srcs false
                                    ++ (write_list_to_build (codes "cgo_linkerflags")
                                          t.cgo_linker_flags false
                                        ++ (write_list_to_build (codes "cgo_cxxflags")
                                              t.cgo_cxx_flags false
                                            ++ (write_list_to_build (codes "cgo_includeflags")
                                                  t.cgo_include_flags false
                                                ++ ((if str_eq t.module_name []
                                                      then []
                                                      else codes "  module_name = '"
                                                        ++ (t.module_name ++ codes "',\n"))
                                                    ++ (write_list_to_build (codes "deps") t.deps
                                                          true
                                                        ++ ((if is_nil (domain tm)
                                                            then []
                                                            else write_tag_map kept)
                                                            ++ write_to_build t.ecw
                                                            t.name)))))))))))),
        if is_nil (domain tm) then tm else kept,
      )

  -- The loop that looks for the last component "internal", and its parent.
  unfoldable pub internal_loop : List (Str × Str) → Option Str
  internal_loop [] = none
  internal_loop ((parent, component) ∷ more) =
      if str_eq component (codes "internal") then some parent else internal_loop more

  -- The second piece of a path that starts with "atlas/".
  abbrev pub service_of : List Str → Str
  service_of [] = []
  service_of (root ∷ l) = elim l [ [] ↦ [] | service ∷ _ ↦ service ]

  -- The packages that a library is visible to.
  unfoldable pub visibility : Str → Str
  unfolding internal_loop
  visibility pkg_path =
      let public =
        if has_prefix pkg_path (codes "dropbox/")
        then visible (codes "//go/src/atlas:__subpackages__")
          ++ (visible (codes "//go/src/dropbox:__subpackages__")
              ++ (if str_eq pkg_path (codes "dropbox/proto/mysql")
                  then visible (codes "//go/src/godropbox/database/binlog:__subpackages__")
                  else []))
        else if has_prefix pkg_path (codes "atlas/")
        then visible (
            codes "//go/src/atlas/"
            ++ (service_of (split pkg_path b'/') ++ codes ":__subpackages__"))
        else visible (codes "//visibility:public") in
      elim (internal_loop (parents pkg_path)) [
        | some parent ↦
            if not (has_prefix pkg_path (codes "dropbox/proto/"))
            then visible (codes "//go/src/" ++ (parent ++ codes ":__subpackages__"))
            else public
        | none ↦ public
      ]

  -- `writeTarget`: the text, and the tag map.
  unfoldable pub write_target : Target → TagMap → Str × TagMap
  unfolding write_common visibility
  write_target t tm =
      let (common, tm') = write_common t tm in
      let shown =
        if str_eq t.rule (codes "dbx_go_library")
        then codes "  visibility=[\n" ++ (visibility t.pkg_path ++ codes "  ],\n")
        else if str_eq t.rule (codes "dbx_go_binary")
        then codes "  visibility=[\n" ++ (visible (codes "//visibility:public") ++ codes "  ]\n")
        else [] in
      let no_input = is_nil t.srcs && (is_nil t.deps && (is_nil t.cgo_srcs && is_nil t.cgo_deps)) in
      (if no_input then [] else common ++ (shown ++ codes ")\n"), if no_input then tm else tm')

  -- After the target of a library with sources is written, the tag map, which the targets of its
  -- tests are written from next, has tags for the library's own sources only: those of the test
  -- files are gone.
  pub lookup-write_target :
      (lib : Target) (tm : TagMap) (file : Str)
      → is_nil lib.srcs ≡ false
      → lookup file (write_target lib tm).1 ≡ (if has file lib.srcs then lookup file tm else none)
  unfolding write_target lookup
  lookup-write_target lib [] file some_srcs = ground (arith, some_srcs)
  lookup-write_target lib ((k, v) ∷ tm) file some_srcs =
      let left : (write_target lib ((k, v) ∷ tm)).1 ≡ keep_entries ((k, v) ∷ tm) lib.srcs =
        rw some_srcs refl in
      ap (lookup file) left ∙ lookup-keep_entries file ((k, v) ∷ tm) lib.srcs
