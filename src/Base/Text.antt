-- ===== src/Base/Text.antt =====
-- The functions of Go's package strings that the program calls, on strings as lists of bytes.
use Prim.Native.Nat.{ℕ}
use mathlib.Core.Path.{◌≡◌, refl, sym, ap, ap₂, ◌∙◌}
use mathlib.Core.Logic.{◌↔◌, ◌≢◌, inl, inr}
use mathlib.Core.Bool.{Bool, true, false, ◌&&◌, ◌||◌}
use mathlib.Core.List.{List, [], ◌∷◌, ◌++◌}
use native.Mathlib.Omega.{arith}
use dbx_build_tools.Base.Tests.{◌==◌, ==_iff, if◌then◌else◌, Bool-cases}
use dbx_build_tools.Base.Strings.{Str}

-- `strings.HasPrefix`
unfoldable pub has_prefix : Str → Str → Bool
has_prefix s [] = true
has_prefix [] (p ∷ ps) = false
has_prefix (c ∷ s) (p ∷ ps) = (c == p) && has_prefix s ps

-- `strings.Contains` of one byte.
unfoldable pub contains_byte : Str → ℕ → Bool
contains_byte [] b = false
contains_byte (c ∷ s) b = c == b || contains_byte s b

-- A byte put in front of the first piece of a split.
abbrev pub onto_first : ℕ → List Str → List Str
onto_first c [] = (c ∷ []) ∷ []
onto_first c (piece ∷ pieces) = (c ∷ piece) ∷ pieces

-- `strings.Split` at one byte.
unfoldable pub split : Str → ℕ → List Str
split [] sep = [] ∷ []
split (c ∷ s) sep = let rest = split s sep in if c == sep then [] ∷ rest else onto_first c rest

-- `strings.Join` with one byte.
unfoldable pub join : List Str → ℕ → Str
join [] sep = []
join (piece ∷ pieces) sep =
    let rest = join pieces sep in elim pieces [ [] ↦ piece | _ ∷ _ ↦ piece ++ sep ∷ rest ]

pub has_prefix_iff : (s p : Str) → (has_prefix s p ≡ true) ↔ ((rest : Str) × (s ≡ p ++ rest))
unfolding has_prefix
has_prefix_iff s [] = (λ _. (s, refl), λ _. refl)
has_prefix_iff [] (p ∷ ps) = (λ h. absurd (cc), λ h. absurd (cc (h.1)))
has_prefix_iff (c ∷ s) (p ∷ ps) = (
  λ h. let (rest, e) = (has_prefix_iff s ps).0 (ground arith) in (rest, ground (arith, e)),
  λ (rest, e). ground (arith, (has_prefix_iff s ps).1 (rest, ground arith)),
)

pub contains_byte-append :
    (s t : Str) (b : ℕ) → contains_byte (s ++ t) b ≡ (contains_byte s b || contains_byte t b)
unfolding contains_byte
contains_byte-append [] t b = refl
contains_byte-append (c ∷ s) t b = ground (arith, contains_byte-append s t b)

pub split-ne-nil : (s : Str) (sep : ℕ) → split s sep ≢ []
unfolding split
split-ne-nil [] sep h = cc
split-ne-nil (c ∷ s) sep h = ground (arith, split-ne-nil s sep)

join-onto_first :
    (c : ℕ) (ps : List Str) (sep : ℕ) → ps ≢ [] → join (onto_first c ps) sep ≡ c ∷ join ps sep
unfolding join
join-onto_first c [] sep h = absurd (h refl)
join-onto_first c (p ∷ []) sep h = refl
join-onto_first c (p ∷ q ∷ ps) sep h = refl

join-nil-cons : (ps : List Str) (sep : ℕ) → ps ≢ [] → join ([] ∷ ps) sep ≡ sep ∷ join ps sep
unfolding join
join-nil-cons [] sep h = absurd (h refl)
join-nil-cons (p ∷ ps) sep h = refl

-- Joining the pieces gives the string back.
pub join-split : (s : Str) (sep : ℕ) → join (split s sep) sep ≡ s
unfolding split
join-split [] sep = unfold join in refl
join-split (c ∷ s) sep = elim (Bool-cases (c == sep)) [
  | inl e ↦ rw e (
      join-nil-cons (split s sep) sep (split-ne-nil s sep)
      ∙ ap₂ (λ (x : ℕ) (l : Str). x ∷ l) (sym ((==_iff c sep).0 e)) (join-split s sep))
  | inr e ↦ rw e (
      join-onto_first c (split s sep) sep (split-ne-nil s sep)
      ∙ ap (λ (l : Str). c ∷ l) (join-split s sep))
]
