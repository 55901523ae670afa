-- ===== src/Base/Ints.antt =====
-- Sets of `int`s, as lists.
use Prim.Native.Nat.{ℕ, ◌+◌, ◌<◌, ◌≤◌}
use mathlib.Core.Path.{◌≡◌, refl}
use mathlib.Core.Logic.{◌↔◌}
use mathlib.Core.Bool.{Bool, true, false, ◌||◌}
use mathlib.Core.List.{List, [], ◌∷◌, ◌++◌, Memᴰ}
use mathlib.Core.List.Memᴰ
use native.Mathlib.Omega.{arith}
use dbx_build_tools.Base.Tests.{◌==◌, ==_iff, if◌then◌else◌}
use dbx_build_tools.Base.Lists.{Memᴰ-cons}

unfoldable pub has_int : ℕ → List ℕ → Bool
has_int n [] = false
has_int n (x ∷ xs) = (n == x) || has_int n xs

unfoldable pub occ_int : ℕ → List ℕ → ℕ
occ_int n [] = 0
occ_int n (x ∷ xs) = (if n == x then 1 else 0) + occ_int n xs

pub has_int_iff : (n : ℕ) (xs : List ℕ) → (has_int n xs ≡ true) ↔ Memᴰ n xs
unfolding has_int
has_int_iff n [] = (λ h. cc, λ m. absurd (Memᴰ.not-nil m))
has_int_iff n (x ∷ xs) = ground (arith, ==_iff n x, has_int_iff n xs, Memᴰ-cons n x xs)

pub has_int-append :
    (n : ℕ) (xs ys : List ℕ) → has_int n (xs ++ ys) ≡ (has_int n xs || has_int n ys)
unfolding has_int
has_int-append n [] ys = refl
has_int-append n (x ∷ xs) ys = ground (arith, has_int-append n xs ys)

pub occ_int-append : (n : ℕ) (xs ys : List ℕ) → occ_int n (xs ++ ys) ≡ occ_int n xs + occ_int n ys
unfolding occ_int
occ_int-append n [] ys = omega arith
occ_int-append n (x ∷ xs) ys = omega (arith, occ_int-append n xs ys)

pub has_int-occ_int : (n : ℕ) (xs : List ℕ) → (has_int n xs ≡ true) ↔ (0 < occ_int n xs)
unfolding has_int occ_int
has_int-occ_int n [] = (λ h. cc, λ h. absurd (omega arith))
has_int-occ_int n (x ∷ xs) = ground (arith, has_int-occ_int n xs)

-- No number stands twice.
abbrev pub DistinctInts : List ℕ → Type 0
DistinctInts xs = (n : ℕ) → occ_int n xs ≤ 1
