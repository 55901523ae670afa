-- ===== src/Base/Sort.antt =====
-- Go's order of strings, byte by byte, and `sort.Strings`.
use mathlib.Core.Path.{◌≡◌, refl}
use mathlib.Core.Logic.{◌⊎◌, inl, inr}
use mathlib.Core.Bool.{Bool, true, false, ◌&&◌, ◌||◌}
use mathlib.Core.List.{List, [], ◌∷◌}
use native.Mathlib.Omega.{arith}
use dbx_build_tools.Base.Tests.{ltb, ◌==◌, if◌then◌else◌}
use dbx_build_tools.Base.Strings.{Str, occ}

unfoldable pub str_lt : Str → Str → Bool
str_lt s [] = false
str_lt [] (y ∷ ys) = true
str_lt (x ∷ xs) (y ∷ ys) = ltb x y || (x == y) && str_lt xs ys

pub str_lt-total : (s t : Str) → (str_lt s t ≡ true) ⊎ ((s ≡ t) ⊎ (str_lt t s ≡ true))
unfolding str_lt
str_lt-total [] [] = inr (inl refl)
str_lt-total [] (y ∷ ys) = inl refl
str_lt-total (x ∷ xs) [] = inr (inr refl)
str_lt-total (x ∷ xs) (y ∷ ys) = ground (arith, str_lt-total xs ys)

pub str_lt-asym : (s t : Str) → str_lt s t ≡ true → str_lt t s ≡ false
unfolding str_lt
str_lt-asym [] [] h = refl
str_lt-asym [] (y ∷ ys) h = refl
str_lt-asym (x ∷ xs) [] h = absurd (cc)
str_lt-asym (x ∷ xs) (y ∷ ys) h = ground (arith, str_lt-asym xs ys, h)

pub str_lt_trans : (s t u : Str) → str_lt s t ≡ true → str_lt t u ≡ true → str_lt s u ≡ true
unfolding str_lt
str_lt_trans s [] u h k = absurd (cc)
str_lt_trans s (y ∷ ys) [] h k = absurd (cc)
str_lt_trans [] (y ∷ ys) (z ∷ zs) h k = refl
str_lt_trans (x ∷ xs) (y ∷ ys) (z ∷ zs) h k = ground (arith, str_lt_trans xs ys zs, h, k)

unfoldable pub insert_sorted : Str → List Str → List Str
insert_sorted s [] = s ∷ []
insert_sorted s (t ∷ l) = let rest = insert_sorted s l in if str_lt t s then t ∷ rest else s ∷ t ∷ l

-- `sort.Strings`
unfoldable pub sort_strings : List Str → List Str
unfolding insert_sorted
sort_strings [] = []
sort_strings (s ∷ l) = insert_sorted s (sort_strings l)

occ-insert_sorted : (k s : Str) (l : List Str) → occ k (insert_sorted s l) ≡ occ k (s ∷ l)
unfolding insert_sorted occ
occ-insert_sorted k s [] = refl
occ-insert_sorted k s (t ∷ l) = ground (arith, occ-insert_sorted k s l)

-- Sorting keeps every string as often as it is.
pub occ-sort_strings : (k : Str) (l : List Str) → occ k (sort_strings l) ≡ occ k l
unfolding sort_strings occ
occ-sort_strings k [] = refl
occ-sort_strings k (s ∷ l) =
    ground (arith, occ-insert_sorted k s (sort_strings l), occ-sort_strings k l)
