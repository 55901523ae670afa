-- ===== src/Tar/Tests.antt =====
-- An archive of two files, for go/src/dropbox/build_tools/build-tar/main.go.
use dbx_build_tools.Base.{
  ℕ, ◌+◌, ◌==◌, Option, none, str_eq_iff, ==_iff, str_eq_refl, Bool-cases, Option-cases, inl, inr,
  ap, sym, suc, ◌<◌, ◌≡◌, refl, true, false, List, [], ◌∷◌, Str, codes, has, str_eq, length, arith,
  some, All, if◌then◌else◌,
}
use dbx_build_tools.Base.Result.{Result, ok}
use dbx_build_tools.Tar.{ManifestEntry, TarEntry, directory, empty_file, file, dot, tar_loop}
use dbx_build_tools.Tar.Parents.{IsDir, AreParents, AreThere, tar_loop-AreParents}

-- What stands before the last slash of a path.
abbrev up : Str → Option Str
up [] = none
up (c ∷ s) = elim (up s) [ some t ↦ some (c ∷ t) | none ↦ if c == b'/' then some [] else none ]

abbrev dir_of : Option Str → Str
dir_of none = dot
dir_of (some []) = codes "/"
dir_of (some (c ∷ s)) = c ∷ s

-- `filepath.Dir` on paths that are clean.
abbrev dir : Str → Str
dir path = dir_of (up path)

dir_root : dir (codes "/") ≡ codes "/"
dir_root = refl

dir_top : dir (codes "/a") ≡ codes "/"
dir_top = refl

dir_single : dir (codes "a") ≡ dot
dir_single = refl

dir_deep : dir (codes "/a/bc/d") ≡ codes "/a/bc"
dir_deep = refl

abbrev depth : Str → ℕ
depth path = if str_eq path dot then 0 else suc (length path)

length-up : (s t : Str) → up s ≡ some t → length t < length s
length-up [] t h = cc
length-up (c ∷ s) t h = elim (Option-cases (up s)) [
  | inl e ↦ ground (arith, h, e)
  | inr (u, e) ↦
      let same : c ∷ u ≡ t = ground (arith, h, e) in
      let size : suc (length u) ≡ length t = ap length same in omega (arith, length-up s u e, size)
]

-- A path of which `up` finds something is not ".".
up-dot : (s t : Str) → up s ≡ some t → str_eq s dot ≡ false
up-dot s t h = elim (Bool-cases (str_eq s dot)) [
  | inl e ↦ let nothing : up s ≡ none = ap up ((str_eq_iff s dot).0 e) in absurd (cc)
  | inr e ↦ e
]

dir-IsDir : IsDir dir depth
dir-IsDir = record { shorter = λ path h. below path (up path) refl h }
  where
    below :
        (path : Str) (o : Option Str)
        → up path ≡ o
        → str_eq (dir_of o) path ≡ false
        → depth (dir_of o) < depth path
    below path none e h = elim (Bool-cases (str_eq path dot)) [
      | inl q ↦
          let same : str_eq dot path ≡ true =
            (str_eq_iff dot path).1 (sym ((str_eq_iff path dot).0 q)) in
          absurd (cc)
      | inr q ↦ ground (arith, q, str_eq_refl dot)
    ]
    below [] (some []) e h = cc
    below (c ∷ []) (some []) e h = elim (Bool-cases (c == b'/')) [
      | inl q ↦
          let root : codes "/" ≡ c ∷ [] = ap (λ (x : ℕ). x ∷ []) (sym ((==_iff c b'/').0 q)) in
          let same : str_eq (codes "/") (c ∷ []) ≡ true =
            (str_eq_iff (codes "/") (c ∷ [])).1 root in
          absurd (ground (arith, same, h))
      | inr q ↦ absurd (ground (arith, q, e))
    ]
    below (c ∷ d ∷ path) (some []) e h =
        ground (arith, up-dot (c ∷ d ∷ path) [] e, str_eq_iff (codes "/") dot)
    below path (some (c ∷ s)) e h = ground (arith, up-dot path (c ∷ s) e, length-up path (c ∷ s) e)

-- The files a/b/c and /a/d, and an empty file.
abbrev manifest : List ManifestEntry
manifest =
    record { short_dest = codes "a/b/c"; src = codes "1" }
    ∷ record { short_dest = codes "e"; src = [] }
    ∷ record { short_dest = codes "/a/d"; src = codes "2" }
    ∷ record { short_dest = codes "a/e"; src = codes "3" }
    ∷ []

archive_of_four :
    tar_loop dir 9 (λ s. s) (λ s. true) manifest []
    ≡ some (
        ok (
          directory (codes "a")
          ∷ directory (codes "a/b")
          ∷ file (codes "a/b/c") (codes "1")
          ∷ empty_file (codes "e")
          ∷ directory (codes "/")
          ∷ directory (codes "/a")
          ∷ file (codes "/a/d") (codes "2")
          ∷ file (codes "a/e") (codes "3")
          ∷ []))
unfolding tar_loop str_eq has
archive_of_four = refl

tar_loop-AreParents_example :
    (r : Result Str (List TarEntry)) × (tar_loop dir 9 (λ s. s) (λ s. true) manifest [] ≡ some r)
    × ((out : List TarEntry) → r ≡ ok out → AreParents dir depth dir-IsDir [] out)
    × (AreThere dir depth dir-IsDir (λ s. true) manifest → (out : List TarEntry) × (r ≡ ok out))
unfolding str_eq
tar_loop-AreParents_example =
    tar_loop-AreParents dir depth dir-IsDir 9 (λ s. s) (λ s. true) manifest [] shallow
  where
    shallow : All (λ m. depth (dir m.short_dest) + 1 < 9) manifest
    shallow = (omega arith, (omega arith, (omega arith, (omega arith, tt))))
