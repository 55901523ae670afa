-- ===== src/Sqfs/Manifest.antt =====
-- The lists that go/src/dropbox/build_tools/build-sqfs/main.go reads: `readManifest`, and the lines of
-- `createSymlinks` and `setCapability`. The scanner gives the lines up to its end or its error; the
-- source does not ask for the error.
use dbx_build_tools.Base.{
  ℕ, ◌≡◌, refl, ap, false, Option, none, some, List, [], ◌∷◌, ◌++◌, map, Str, contains_byte, ◌==◌,
  if◌then◌else◌, arith, Bool-cases, inl, inr, All,
}
use dbx_build_tools.Base.Result.{Result, ok, err, ◌>>=◌}

pub record ManifestEntry : Type 0 where
  pub short_dest : Str
  pub src : Str

-- `strings.SplitN(line, sep, 2)`: the piece before the first separator, and the rest after it.
unfoldable pub split_n : ℕ → Str → Str × Option Str
split_n sep [] = ([], none)
split_n sep (c ∷ s) =
    let (first, rest) = split_n sep s in if c == sep then ([], some s) else (c ∷ first, rest)

module _ (trim_space : Str → Str) where
  unfoldable pub manifest_entry : Str → ManifestEntry
  unfolding split_n
  manifest_entry line =
      let (dest, rest) = split_n 0 line in
      record { short_dest = dest; src = elim rest [ none ↦ [] | some s ↦ trim_space s ] }

  -- `readManifest`, on what `os.Open` and the scanner gave.
  unfoldable pub read_manifest : {E : Type 0} → Result E (List Str) → Result E (List ManifestEntry)
  unfolding manifest_entry
  read_manifest opened = opened >>= λ lines. ok (map manifest_entry lines)

pub data LineError : Type 0 where
  unexpected_line : Str → LineError

-- One line of a symlink or capability list, whose two parts must both be there.
unfoldable pub two_parts : Str → Result LineError (Str × Str)
unfolding split_n
two_parts line =
    let (first, rest) = split_n 0 line in
    elim rest [ none ↦ err (unexpected_line line) | some second ↦ ok (first, second) ]

-- The loop of `setCapability`.
unfoldable pub capability_args : (Str → Str) → List Str → List Str → Result LineError (List Str)
unfolding two_parts
capability_args join_scratch [] args = ok args
capability_args join_scratch (line ∷ lines) args = do
  (file_path, capability) ← two_parts line
  capability_args join_scratch lines (args ++ capability ∷ join_scratch file_path ∷ [])

-- A line of a manifest.
abbrev pub manifest_line : ManifestEntry → Str
manifest_line e = e.short_dest ++ 0 ∷ e.src

split_n-append :
    (s rest : Str) → contains_byte s 0 ≡ false → split_n 0 (s ++ 0 ∷ rest) ≡ (s, some rest)
unfolding split_n contains_byte
split_n-append [] rest h = refl
split_n-append (c ∷ s) rest h = elim (Bool-cases (c == 0)) [
  | inl e ↦ absurd (ground (arith, h, e))
  | inr e ↦ let tail = split_n-append s rest (ground (arith, h, e)) in rw (e, tail) refl
]

-- An entry whose destination holds no zero byte, and whose source has no white space to trim.
abbrev pub IsPlain : (Str → Str) → ManifestEntry → Type 0
IsPlain trim_space e = (contains_byte e.short_dest 0 ≡ false) × (trim_space e.src ≡ e.src)

manifest_entry_line :
    (trim_space : Str → Str) (e : ManifestEntry)
    → IsPlain trim_space e
    → manifest_entry trim_space (manifest_line e) ≡ e
unfolding manifest_entry
manifest_entry_line trim_space e (no_zero, trimmed) =
    rw (manifest_entry, split_n-append e.short_dest e.src no_zero, trimmed) refl

map_entries :
    (trim_space : Str → Str) (entries : List ManifestEntry)
    → All (IsPlain trim_space) entries
    → map (manifest_entry trim_space) (map manifest_line entries) ≡ entries
map_entries trim_space [] plain = refl
map_entries trim_space (e ∷ entries) (now, later) =
    let first = manifest_entry_line trim_space e now in
    let rest = map_entries trim_space entries later in cc (first, rest)

-- Reading the lines of a manifest gives back its entries, when no destination holds a zero byte and
-- no source begins or ends with white space.
pub read_manifest-map :
    {E : Type 0} (trim_space : Str → Str) (entries : List ManifestEntry)
    → All (IsPlain trim_space) entries
    → read_manifest trim_space {E = E} (ok (map manifest_line entries)) ≡ ok entries
unfolding read_manifest
read_manifest-map {E} trim_space entries plain = ap ok (map_entries trim_space entries plain)
