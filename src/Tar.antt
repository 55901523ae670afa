-- ===== src/Tar.antt =====
-- go/src/dropbox/build_tools/build-tar/main.go: the archive of the files of a manifest.
pub mod Parents
mod Tests
use mathlib.Core.Option
use dbx_build_tools.Base.{
  ℕ, zero, suc, ◌+◌, Bool, true, false, ◌||◌, Option, none, some, List, [], ◌∷◌, ◌++◌, map, Str,
  str_eq, codes, has, has_prefix, cut, drop, length, is_nil, if◌then◌else◌,
}
use dbx_build_tools.Base.Result.{Result, ok, err, panic, ◌>>=◌}

pub record ManifestEntry : Type 0 where
  pub short_dest : Str
  pub src : Str

pub record SymlinkEntry : Type 0 where
  pub src : Str
  pub dst : Str

-- `strings.TrimPrefix`
unfoldable pub trim_prefix : Str → Str → Str
unfolding has_prefix
trim_prefix s prefix = if has_prefix s prefix then drop (length prefix) s else s

-- A line up to its first zero byte, and the trimmed rest; `trim_space` is `strings.TrimSpace`.
abbrev pub components : (Str → Str) → Str → Option (Str × Str) → Str × Str
components trim_space line none = (line, [])
components trim_space line (some (first, rest)) = (first, trim_space rest)

module _ (trim_space : Str → Str) where
  -- `readManifest`, on the lines of the file.
  unfoldable pub read_manifest_lines : List Str → List ManifestEntry
  unfolding cut
  read_manifest_lines [] = []
  read_manifest_lines (line ∷ lines) =
      let (first, rest) = components trim_space line (cut line 0) in
      record { short_dest = first; src = rest } ∷ read_manifest_lines lines

  -- `readSymlinks`, on the lines of the file.
  unfoldable pub read_symlink_lines : List Str → List SymlinkEntry
  unfolding cut
  read_symlink_lines [] = []
  read_symlink_lines (line ∷ lines) =
      let (first, rest) = components trim_space line (cut line 0) in
      record { src = first; dst = rest } ∷ read_symlink_lines lines

-- The loop of `rewriteDestination` over the symlinks.
unfoldable pub rewrite_loop : List SymlinkEntry → Str → Str
unfolding str_eq has_prefix trim_prefix
rewrite_loop [] short_dest = short_dest
rewrite_loop (entry ∷ entries) short_dest = rewrite_loop entries (
    if str_eq short_dest entry.dst
    then entry.src
    else if has_prefix short_dest entry.dst
    then entry.src ++ trim_prefix short_dest entry.dst
    else short_dest)

-- `rewriteDestination`; `join_path` is `filepath.Join`.
unfoldable pub rewrite_destination : (Str → Str → Str) → Str → List SymlinkEntry → Str → Str → Str
unfolding rewrite_loop trim_prefix
rewrite_destination join_path short_dest entries package_dir strip_prefix =
    let dest = rewrite_loop entries short_dest in
    join_path (trim_prefix package_dir (codes "/"))
      (if is_nil strip_prefix then dest else trim_prefix dest strip_prefix)

-- `packageDir` of `main`.
unfoldable pub package_dir_of : Str → Str
unfolding has_prefix trim_prefix
package_dir_of prefix =
    let package_dir = trim_prefix prefix (codes "/") in
    if has_prefix package_dir (codes "./") then package_dir else codes "./" ++ package_dir

-- What is written to the archive.
pub data TarEntry : Type 0 where
  directory : Str → TarEntry
  empty_file : Str → TarEntry
  file : Str → Str → TarEntry

abbrev pub dot : Str
dot = codes "."

-- `dir` is `filepath.Dir`.
module _ (dir : Str → Str) where
  -- The first loop of `maybeCreateDirectories`: `newDirs`, the last of them first, in the order in
  -- which the second loop writes them. `none` means that the fuel ran out.
  unfoldable pub dirs_loop : ℕ → Str → List Str → List Str → Option (List Str × List Str)
  unfolding str_eq has
  dirs_loop zero dir_name created new_dirs = none
  dirs_loop (suc fuel) dir_name created new_dirs =
      let rest = dirs_loop fuel (dir dir_name) (dir_name ∷ created) (dir_name ∷ new_dirs) in
      if str_eq dir_name dot || has dir_name created then some (created, new_dirs) else rest

  -- `maybeCreateDirectories`: `alreadyCreated`, and the headers that it writes.
  unfoldable pub maybe_create_directories : ℕ → Str → List Str → Option (List Str × List TarEntry)
  unfolding dirs_loop
  maybe_create_directories fuel file_path created =
      elim (dirs_loop fuel (dir file_path) created []) [
        | none ↦ none
        | some (created', new_dirs) ↦ some (created', map directory new_dirs)
      ]

  -- The loop of `main` over the manifest, where `destination` is its call of `rewriteDestination`,
  -- and `has_stat` whether `os.Stat` succeeds; after one that fails, `stat` is nil.
  unfoldable pub tar_loop :
      ℕ
      → (Str → Str)
      → (Str → Bool)
      → List ManifestEntry
      → List Str
      → Option (Result Str (List TarEntry))
  unfolding maybe_create_directories
  tar_loop fuel destination has_stat [] created = some (ok [])
  tar_loop fuel destination has_stat (m ∷ manifest) created =
      let dst = destination m.short_dest in
      let without = tar_loop fuel destination has_stat manifest created in
      if is_nil m.src
      then Option.map (λ r. r >>= λ out. ok (empty_file dst ∷ out)) without
      else elim (maybe_create_directories fuel dst created) [
        | none ↦ none
        | some (created', dirs) ↦
            if has_stat m.src
            then Option.map (λ r. r >>= λ out. ok (dirs ++ file dst m.src ∷ out))
                (tar_loop fuel destination has_stat manifest created')
            else some panic
      ]
