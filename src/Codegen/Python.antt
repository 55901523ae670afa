-- ===== src/Codegen/Python.antt =====
-- go/src/dropbox/build_tools/codegen/py_writer.go. A pointer to an `ImportName` is its path and name
-- in `imports`.
use dbx_build_tools.Base.{
  is_nil, ℕ, ◌-◌, Bool, true, false, Option, none, some, List, [], ◌∷◌, ◌++◌, Str, codes, str_eq,
  lookup, insert, domain, length, drop, take, ◌==◌, has_prefix, ltb, not, ◌&&◌, sort_strings,
  if◌then◌else◌,
}
use dbx_build_tools.Codegen.Lines.{
  LineWriter, new_line_writer, push_indent, pop_indent, line, string,
}
use dbx_build_tools.Codegen.Alias.{pick_alias}

pub record ImportName : Type 0 where
  pub name : Str
  pub alias : Str

pub record PythonPkgMap : Type 0 where
  pub imports : List (Str × List (Str × ImportName))
  pub locals : List Str

abbrev pub new_python_pkg_map : PythonPkgMap
new_python_pkg_map = record { imports = []; locals = [] }

-- `strings.HasSuffix`
unfoldable pub has_suffix : Str → Str → Bool
has_suffix s suffix =
    not (ltb (length s) (length suffix)) && str_eq (drop (length s - length suffix) s) suffix

-- `strings.Replace(path, "/", ".", -1)`
unfoldable pub dotted : Str → Str
dotted [] = []
dotted (c ∷ s) = let rest = dotted s in if c == b'/' then b'.' ∷ rest else c ∷ rest

unfoldable pub module_of : Str → Str
unfolding has_suffix dotted
module_of path = dotted (
    if has_suffix path (codes ".py")
    then take (length path - 3) path
    else if has_suffix path (codes ".proto")
    then take (length path - 6) path ++ codes "_pb2"
    else path)

abbrev pub entries_of : Str → List (Str × List (Str × ImportName)) → List (Str × ImportName)
entries_of path imports = elim (lookup path imports) [ none ↦ [] | some entries ↦ entries ]

-- `From`: the map, and the pointer that it returns.
unfoldable pub from : Str → Str → PythonPkgMap → PythonPkgMap × (Str × Str)
unfolding module_of
from path name m =
    let key = module_of path in
    let entries = entries_of key m.imports in
    let entries' : List (Str × ImportName) = elim (lookup name entries) [
      | none ↦ insert name (record { name = name; alias = [] }) entries
      | some _ ↦ entries
    ] in
    (record m { imports = insert key entries' m.imports }, (key, name))

unfoldable pub register_local : Str → PythonPkgMap → PythonPkgMap
register_local name m = record m { locals = m.locals ++ name ∷ [] }

-- `entry.alias = alias`
abbrev pub set_entry : Str → Str → List (Str × ImportName) → List (Str × ImportName)
set_entry name alias entries = elim (lookup name entries) [
  | none ↦ entries
  | some e ↦ insert name (record e { alias = alias }) entries
]

module _ (print_int : ℕ → Str) where
  -- The loop over the sorted names of one import: the aliases in use and the entries.
  unfoldable pub names_loop :
      Str
      → List Str
      → List Str
      → List (Str × ImportName)
      → Option (List Str × List (Str × ImportName))
  names_loop key [] used entries = some (used, entries)
  names_loop key (name ∷ names) used entries =
      let shown = if str_eq name [] then key else name in
      elim (pick_alias print_int shown 0 used) [
        | none ↦ none
        | some alias ↦ names_loop key names (alias ∷ used) (set_entry name alias entries)
      ]

  -- The loop over the sorted imports.
  unfoldable pub keys_loop :
      List Str
      → List Str
      → List (Str × List (Str × ImportName))
      → Option (List (Str × List (Str × ImportName)))
  unfolding names_loop
  keys_loop [] used imports = some imports
  keys_loop (key ∷ keys) used imports =
      let entries = entries_of key imports in
      elim (names_loop key (sort_strings (domain entries)) used entries) [
        | none ↦ none
        | some (used', entries') ↦ keys_loop keys used' (insert key entries' imports)
      ]

  unfoldable pub assign_aliases : PythonPkgMap → Option PythonPkgMap
  unfolding keys_loop
  assign_aliases m = elim (keys_loop (sort_strings (domain m.imports)) m.locals m.imports) [
    | none ↦ none
    | some imports ↦ some (record m { imports = imports })
  ]

-- The names of an import that are not empty; `writeImports` writes `import` for the empty one.
unfoldable pub named : List Str → List Str
named [] = []
named (name ∷ names) = let rest = named names in if str_eq name [] then rest else name ∷ rest

unfoldable pub unnamed_lines : Str → List Str → LineWriter Str → LineWriter Str
unnamed_lines path [] w = w
unnamed_lines path (name ∷ names) w =
    unnamed_lines path names (if str_eq name [] then line (codes "import %s") (path ∷ []) w else w)

unfoldable pub name_lines : List (Str × ImportName) → List Str → LineWriter Str → LineWriter Str
name_lines entries [] w = w
name_lines entries (name ∷ names) w = name_lines entries names (elim (lookup name entries) [
  | none ↦ w
  | some e ↦
      if str_eq e.alias e.name
      then line (codes "%s,") (e.name ∷ []) w
      else line (codes "%s as %s,") (e.name ∷ e.alias ∷ []) w
])

unfoldable pub write_imports :
    List (Str × List (Str × ImportName)) → List Str → LineWriter Str → LineWriter Str
unfolding named unnamed_lines name_lines
write_imports imports [] w = w
write_imports imports (path ∷ paths) w =
    let entries = entries_of path imports in
    let names = sort_strings (named (domain entries)) in
    let w1 = unnamed_lines path (domain entries) w in
    write_imports imports paths (
      if is_nil names
      then w1
      else line (codes ")") [] (
          pop_indent (
            name_lines entries names
              (push_indent (line (codes "from %s import (") (path ∷ []) w1)))))

-- The paths that start with `dropbox`, and the others.
unfoldable pub paths_with : Bool → List Str → List Str
paths_with true [] = []
paths_with true (path ∷ paths) =
    let rest = paths_with true paths in
    if has_prefix path (codes "dropbox") then path ∷ rest else rest
paths_with false [] = []
paths_with false (path ∷ paths) =
    let rest = paths_with false paths in
    if has_prefix path (codes "dropbox") then rest else path ∷ rest

-- `PythonPkgMap.String`: none is a loop of `AssignAliases` without fuel.
unfoldable pub imports_string :
    (ℕ → Str) → (Str → List Str → Str) → PythonPkgMap → Option (Str × PythonPkgMap)
unfolding assign_aliases write_imports paths_with
imports_string print_int sprintf m = elim m.imports [
  | [] ↦ some ([], m)
  | _ ∷ _ ↦ elim (assign_aliases print_int m) [
    | none ↦ none
    | some m' ↦
        let pylang = sort_strings (paths_with false (domain m'.imports)) in
        let drop = sort_strings (paths_with true (domain m'.imports)) in
        let w1 = write_imports m'.imports pylang (new_line_writer (codes "    ")) in
        let w2 = if is_nil pylang then w1 else line [] [] w1 in
        let w3 = write_imports m'.imports drop w2 in
        let w4 = if is_nil drop then w3 else line [] [] w3 in
        some (string sprintf (line [] [] w4), m')
  ]
]
