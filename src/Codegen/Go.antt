-- ===== src/Codegen/Go.antt =====
-- go/src/dropbox/build_tools/codegen/go_writer.go. A pointer to a `goPkg` is its key in `pkgs`.
pub mod Assigned
use dbx_build_tools.Base.{
  is_nil, ℕ, zero, suc, ◌≤◌, ◌<◌, ◌==◌, ◌≡◌, ◌≢◌, refl, sym, ap, ◌∙◌, ◌⊎◌, inl, inr, Bool, true,
  false, not, ◌||◌, ◌&&◌, Option, none, some, List, [], ◌∷◌, ◌++◌, map, Memᴰ, Memᴰ-cons,
  not-Memᴰ-nil, Str, codes, str_eq, str_eq_iff, str_eq_refl, has, has-append, lookup, insert,
  lookup-insert, domain, length, split, has_prefix, sort_strings, Bool-cases, if◌then◌else◌, ltb,
  arith,
}
use dbx_build_tools.Codegen.Lines.{
  LineWriter, new_line_writer, push_indent, pop_indent, line, string,
}
use dbx_build_tools.Codegen.Alias.{pick_alias, IsPrinting, pick_alias_lem}

pub record GoPkg : Type 0 where
  pub path : Str
  pub alias : Str

pub record GoPkgMap : Type 0 where
  pub local_path : Str
  pub pkgs : List (Str × GoPkg)
  pub reserved : List Str

-- The pointer `goPkg` and the name.
pub record GoValue : Type 0 where
  pub pkg : Str
  pub name : Str

abbrev pub alias_of : Str → List (Str × GoPkg) → Str
alias_of path pkgs = elim (lookup path pkgs) [ none ↦ [] | some p ↦ p.alias ]

-- `goValue.String`
unfoldable pub value_string : List (Str × GoPkg) → GoValue → Str
value_string pkgs o =
    if str_eq (alias_of o.pkg pkgs) [] then o.name else alias_of o.pkg pkgs ++ (codes "." ++ o.name)

unfoldable pub new_go_pkg_map : Str → GoPkgMap
new_go_pkg_map local_path = record {
  local_path = local_path;
  pkgs = insert local_path (record { path = []; alias = [] }) [];
  reserved = [];
}

unfoldable pub reserve : Str → GoPkgMap → GoPkgMap
reserve name m = record m { reserved = name ∷ m.reserved }

-- `goPkgMap.Name`
unfoldable pub name_value : Str → Str → GoPkgMap → GoPkgMap × GoValue
name_value path name m = (
  elim (lookup path m.pkgs) [
    | none ↦ record m { pkgs = insert path (record { path = path; alias = [] }) m.pkgs }
    | some _ ↦ m
  ],
  record { pkg = path; name = name },
)

-- The file of `path.Split`: what follows the last slash.
abbrev pub last_piece : List Str → Str
last_piece [] = []
last_piece (s ∷ []) = s
last_piece (s ∷ t ∷ l) = last_piece (t ∷ l)

unfoldable pub split_file : Str → Str
split_file path = last_piece (split path b'/')

-- `m.pkgs[pkgPath].alias = alias`
abbrev pub set_alias : Str → Str → List (Str × GoPkg) → List (Str × GoPkg)
set_alias path alias pkgs = elim (lookup path pkgs) [
  | none ↦ pkgs
  | some p ↦ insert path (record p { alias = alias }) pkgs
]

module _ (print_int : ℕ → Str) where
  -- The loop of `AssignAliases` over the sorted paths; none means that the fuel of an inner loop ran
  -- out.
  unfoldable pub assign_loop :
      Str → List Str → List Str → List (Str × GoPkg) → Option (List (Str × GoPkg))
  assign_loop local_path [] aliases pkgs = some pkgs
  assign_loop local_path (path ∷ paths) aliases pkgs =
      let count = if str_eq (split_file path) (split_file local_path) then 1 else 0 in
      let skipped = assign_loop local_path paths aliases pkgs in
      if str_eq path local_path
      then skipped
      else elim (pick_alias print_int (split_file path) count aliases) [
        | none ↦ none
        | some alias ↦ assign_loop local_path paths (alias ∷ aliases) (set_alias path alias pkgs)
      ]

  unfoldable pub assign_aliases : GoPkgMap → Option GoPkgMap
  unfolding assign_loop
  assign_aliases m =
      elim (assign_loop m.local_path (sort_strings (domain m.pkgs)) m.reserved m.pkgs) [
        | none ↦ none
        | some pkgs ↦ some (record m { pkgs = pkgs })
      ]

-- The groups of `goPkgMap.String`.
pub data Group : Type 0 where
  golang third_party dropbox : Group

abbrev pub first_piece : List Str → Str
first_piece [] = []
first_piece (s ∷ l) = s

unfoldable pub group_of : Str → Group
group_of path =
    let root = first_piece (split path b'/') in
    if str_eq root (codes "dropbox")
    then dropbox
    else if str_eq root (codes "godropbox") || ltb 1 (length (split root b'.'))
    then third_party
    else golang

abbrev pub is_group : Group → Group → Bool
is_group golang golang = true
is_group third_party third_party = true
is_group dropbox dropbox = true
is_group _ _ = false

-- The paths of the packages of a group that have an alias. The keys of `pkgs` are their paths.
unfoldable pub paths_of : Group → List (Str × GoPkg) → List Str
unfolding group_of
paths_of g [] = []
paths_of g ((k, p) ∷ pkgs) =
    let rest = paths_of g pkgs in
    if str_eq p.alias [] then rest else if is_group (group_of p.path) g then p.path ∷ rest else rest

-- `l("%s \"%s\"", pkg.alias, pkg.path)` for each package.
unfoldable pub import_lines : List (Str × GoPkg) → List Str → LineWriter Str → LineWriter Str
import_lines pkgs [] w = w
import_lines pkgs (path ∷ paths) w =
    import_lines pkgs paths (line (codes "%s \"%s\"") (alias_of path pkgs ∷ path ∷ []) w)

abbrev pub blank_if : Bool → LineWriter Str → LineWriter Str
blank_if b w = if b then line [] [] w else w

-- `goPkgMap.String` after `AssignAliases`.
unfoldable pub imports_string : (Str → List Str → Str) → GoPkgMap → Str
unfolding paths_of import_lines
imports_string sprintf m =
    let gol = sort_strings (paths_of golang m.pkgs) in
    let third = sort_strings (paths_of third_party m.pkgs) in
    let drop = sort_strings (paths_of dropbox m.pkgs) in
    let w1 =
      import_lines m.pkgs gol
        (push_indent (line (codes "import (") [] (new_line_writer (codes "\t")))) in
    let w2 =
      if is_nil third then w1 else import_lines m.pkgs third (blank_if (not (is_nil gol)) w1) in
    let w3 =
      if is_nil drop
      then w2
      else import_lines m.pkgs drop (blank_if (not (is_nil gol) || not (is_nil third)) w2) in
    if is_nil gol && is_nil third && is_nil drop
    then []
    else string sprintf (line [] [] (line (codes ")") [] (pop_indent w3)))

-- `GoWriter`: the values of its lines are strings or `goValue`s, which are formatted when the text
-- is asked for, after the aliases are assigned.
pub record GoWriter (V : Type 0) : Type 0 where
  pub codegen_tool_name : Str
  pub pkg_name : Str
  pub go_pkg_map : GoPkgMap
  pub line_writer : LineWriter V

unfoldable pub new_go_writer : {V : Type 0} → Str → Str → Str → GoWriter V
unfolding new_go_pkg_map
new_go_writer codegen_tool_name pkg pkg_path = record {
  codegen_tool_name = codegen_tool_name;
  pkg_name = pkg;
  go_pkg_map = new_go_pkg_map pkg;
  line_writer = new_line_writer (codes "\t");
}

unfoldable pub writer_string :
    {V : Type 0}
    → (ℕ → Str)
    → (Str → List Str → Str)
    → (List (Str × GoPkg) → Str → List V → Str)
    → GoWriter V
    → Option (Str × GoWriter V)
unfolding imports_string assign_aliases
writer_string print_int sprintf sprintf_late w = elim (assign_aliases print_int w.go_pkg_map) [
  | none ↦ none
  | some m ↦ some (
    codes "// Auto-generated by "
        ++ (w.codegen_tool_name
            ++ (codes ".  Do not edit!\n\npackage "
                ++ (w.pkg_name
                    ++ (codes "\n\n"
                        ++ (imports_string sprintf m
                            ++ string (sprintf_late m.pkgs) w.line_writer))))),
    record w { go_pkg_map = m },
  )
]
