-- ===== src/Base/Strings.antt =====
-- Go strings as lists of bytes, their equality, and sets of strings (`map[string]bool`).
use Prim.Native.Char.{code}
use Prim.Native.String.{String}
use Prim.Native.Nat.{ℕ, ◌+◌, ◌≤◌, ◌<◌}
use mathlib.Core.Path.{◌≡◌, refl}
use mathlib.Core.Logic.{◌↔◌, ◌⊎◌, ⊎_elim}
use mathlib.Core.Bool.{Bool, true, false, ◌&&◌, ◌||◌}
use mathlib.Core.List.{List, [], ◌∷◌, ◌++◌, Memᴰ}
use mathlib.Core.List.Memᴰ
use native.Mathlib.Omega.{arith}
use dbx_build_tools.Base.Tests.{◌==◌, if◌then◌else◌}

abbrev pub Str : Type 0
Str = List ℕ

-- The bytes of an ASCII literal.
abbrev pub codes : String → Str
codes String.[] = []
codes (String.◌∷◌ c s) = code c ∷ codes s

unfoldable pub str_eq : Str → Str → Bool
str_eq [] [] = true
str_eq [] (y ∷ ys) = false
str_eq (x ∷ xs) [] = false
str_eq (x ∷ xs) (y ∷ ys) = (x == y) && str_eq xs ys

pub str_eq_iff : (s t : Str) → (str_eq s t ≡ true) ↔ (s ≡ t)
unfolding str_eq
str_eq_iff [] [] = (λ _. refl, λ _. refl)
str_eq_iff [] (y ∷ ys) = (λ h. cc, λ h. cc)
str_eq_iff (x ∷ xs) [] = (λ h. cc, λ h. cc)
str_eq_iff (x ∷ xs) (y ∷ ys) = ground (arith, str_eq_iff xs ys)

pub str_eq_refl : (s : Str) → str_eq s s ≡ true
str_eq_refl s = (str_eq_iff s s).1 refl

pub str_eq_sym : (s t : Str) → str_eq s t ≡ str_eq t s
str_eq_sym s t = ground (arith, str_eq_iff s t, str_eq_iff t s)

-- Membership of a key in the list of a map's keys.
unfoldable pub has : Str → List Str → Bool
has k [] = false
has k (x ∷ xs) = str_eq k x || has k xs

pub has_iff : (k : Str) (xs : List Str) → (has k xs ≡ true) ↔ Memᴰ k xs
unfolding has
has_iff k [] = (λ h. cc, λ m. absurd (Memᴰ.not-nil m))
has_iff k (x ∷ xs) = ground (arith, str_eq_iff k x, has_iff k xs, mem k x xs)
  where
    mem : (a x : Str) (xs : List Str) → Memᴰ a (x ∷ xs) ↔ ((a ≡ x) ⊎ Memᴰ a xs)
    mem a x xs = (Memᴰ.cases_cons, ⊎_elim Memᴰ.head Memᴰ.tail)

pub has-append : (k : Str) (xs ys : List Str) → has k (xs ++ ys) ≡ (has k xs || has k ys)
unfolding has
has-append k [] ys = refl
has-append k (x ∷ xs) ys = ground (arith, has-append k xs ys)

-- How often a key stands in a list.
unfoldable pub occ : Str → List Str → ℕ
occ k [] = 0
occ k (x ∷ xs) = (if str_eq k x then 1 else 0) + occ k xs

pub occ-append : (k : Str) (xs ys : List Str) → occ k (xs ++ ys) ≡ occ k xs + occ k ys
unfolding occ
occ-append k [] ys = omega arith
occ-append k (x ∷ xs) ys = omega (arith, occ-append k xs ys)

pub has-occ : (k : Str) (xs : List Str) → (has k xs ≡ true) ↔ (0 < occ k xs)
unfolding has occ
has-occ k [] = (λ h. cc, λ h. absurd (omega arith))
has-occ k (x ∷ xs) = ground (arith, has-occ k xs)

-- No key stands twice.
abbrev pub Distinct : List Str → Type 0
Distinct xs = (k : Str) → occ k xs ≤ 1
