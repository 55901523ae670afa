-- ===== src/Base/Lists.antt =====
-- Lists measured and indexed by native numbers, under the library's names.
use Prim.Native.Nat.{ℕ, zero, suc, ◌+◌, ◌<◌}
use mathlib.Core.Path.{◌≡◌, refl, sym, subst, ap}
use mathlib.Core.Logic.{◌⊎◌, ◌↔◌, inl, inr, ⊎_elim}
use mathlib.Core.Bool.{Bool, true, false}
use mathlib.Core.List.{List, [], ◌∷◌, ◌++◌, Memᴰ}
use mathlib.Core.List.Memᴰ
use mathlib.Core.Option.{Option, none, some}
use native.Mathlib.Omega.{arith}
use dbx_build_tools.Base.Tests.{◌==◌, if◌then◌else◌}

module _ {ℓ} {A : Type ℓ} where
  abbrev pub length : List A → ℕ
  length [] = 0
  length (x ∷ xs) = suc (length xs)

  -- `len(xs) == 0`
  abbrev pub is_nil : List A → Bool
  is_nil [] = true
  is_nil (x ∷ xs) = false

  abbrev pub get_elem? : List A → ℕ → Option A
  get_elem? [] i = none
  get_elem? (x ∷ xs) zero = some x
  get_elem? (x ∷ xs) (suc i) = get_elem? xs i

  -- A write out of bounds changes nothing.
  abbrev pub set : List A → ℕ → A → List A
  set [] i v = []
  set (x ∷ xs) zero v = v ∷ xs
  set (x ∷ xs) (suc i) v = x ∷ set xs i v

  abbrev pub take : ℕ → List A → List A
  take zero xs = []
  take (suc n) [] = []
  take (suc n) (x ∷ xs) = x ∷ take n xs

  abbrev pub drop : ℕ → List A → List A
  drop zero xs = xs
  drop (suc n) [] = []
  drop (suc n) (x ∷ xs) = drop n xs

  abbrev pub replicate : ℕ → A → List A
  replicate zero a = []
  replicate (suc n) a = a ∷ replicate n a

  pub length-append : (xs ys : List A) → length (xs ++ ys) ≡ length xs + length ys
  length-append [] ys = omega arith
  length-append (x ∷ xs) ys = omega (arith, length-append xs ys)

  pub length-set : (xs : List A) (i : ℕ) (v : A) → length (set xs i v) ≡ length xs
  length-set [] i v = refl
  length-set (x ∷ xs) zero v = refl
  length-set (x ∷ xs) (suc i) v = ap suc (length-set xs i v)

  pub length-replicate : (n : ℕ) (a : A) → length (replicate n a) ≡ n
  length-replicate zero a = refl
  length-replicate (suc n) a = ap suc (length-replicate n a)

  pub Memᴰ-cons : (a x : A) (xs : List A) → Memᴰ a (x ∷ xs) ↔ ((a ≡ x) ⊎ Memᴰ a xs)
  Memᴰ-cons a x xs = (Memᴰ.cases_cons, ⊎_elim Memᴰ.head Memᴰ.tail)

  pub Memᴰ-append : (a : A) (xs ys : List A) → Memᴰ a (xs ++ ys) ↔ (Memᴰ a xs ⊎ Memᴰ a ys)
  Memᴰ-append a xs ys = (Memᴰ.append_cases xs, ⊎_elim (Memᴰ.append_left _) (Memᴰ.append_right xs))

  pub not-Memᴰ-nil : {a : A} → ¬ Memᴰ a []
  not-Memᴰ-nil m = Memᴰ.not-nil m

-- A predicate on all members, which computes to a tuple.
abbrev pub All {ℓ κ} : {A : Type ℓ} → (A → Type κ) → List A → Type κ
All P [] = Unit
All P (x ∷ xs) = P x × All P xs

pub All-mem {ℓ κ} :
    {A : Type ℓ} (P : A → Type κ) (xs : List A) → All P xs → (x : A) → Memᴰ x xs → P x
All-mem P [] h x m = absurd (Memᴰ.not-nil m)
All-mem P (y ∷ ys) h x m = elim ((Memᴰ-cons x y ys).0 m) [
  | inl e ↦ subst P (sym e) h.0
  | inr n ↦ All-mem P ys h.1 x n
]

module _ {ℓ} {A : Type ℓ} where
  pub get_elem?-snoc_old :
      (xs : List A) (x : A) (i : ℕ) → i < length xs → get_elem? (xs ++ x ∷ []) i ≡ get_elem? xs i
  get_elem?-snoc_old [] x i h = absurd (omega arith)
  get_elem?-snoc_old (y ∷ xs) x zero h = refl
  get_elem?-snoc_old (y ∷ xs) x (suc i) h = get_elem?-snoc_old xs x i (omega arith)

  pub get_elem?-snoc_cases :
      (xs : List A) (x : A) (i : ℕ) {y : A}
      → get_elem? (xs ++ x ∷ []) i ≡ some y
      → (get_elem? xs i ≡ some y) ⊎ (i ≡ length xs) × (y ≡ x)
  get_elem?-snoc_cases [] x zero h = inr (refl, ground arith)
  get_elem?-snoc_cases [] x (suc i) h = absurd (cc)
  get_elem?-snoc_cases (z ∷ xs) x zero h = inl h
  get_elem?-snoc_cases (z ∷ xs) x (suc i) h = elim (get_elem?-snoc_cases xs x i h) [
    | inl old ↦ inl old
    | inr (e, f) ↦ inr (ap suc e, f)
  ]

  pub get_elem?-snoc_new : (xs : List A) (x : A) → get_elem? (xs ++ x ∷ []) (length xs) ≡ some x
  get_elem?-snoc_new [] x = refl
  get_elem?-snoc_new (y ∷ xs) x = get_elem?-snoc_new xs x

  pub lt-length_of_get : (xs : List A) (i : ℕ) {y : A} → get_elem? xs i ≡ some y → i < length xs
  lt-length_of_get [] i h = absurd (cc)
  lt-length_of_get (x ∷ xs) zero h = omega arith
  lt-length_of_get (x ∷ xs) (suc i) h = omega (arith, lt-length_of_get xs i h)

  pub get-of_lt : (xs : List A) (i : ℕ) → i < length xs → (y : A) × (get_elem? xs i ≡ some y)
  get-of_lt [] i h = absurd (omega arith)
  get-of_lt (x ∷ xs) zero h = (x, refl)
  get-of_lt (x ∷ xs) (suc i) h = get-of_lt xs i (omega arith)

  pub get_elem?-set :
      (xs : List A) (i j : ℕ) (w : A) {v : A}
      → get_elem? xs i ≡ some v
      → get_elem? (set xs i w) j ≡ (if i == j then some w else get_elem? xs j)
  get_elem?-set [] i j w h = absurd (cc)
  get_elem?-set (x ∷ xs) zero zero w h = refl
  get_elem?-set (x ∷ xs) zero (suc j) w h = ground arith
  get_elem?-set (x ∷ xs) (suc i) zero w h = ground arith
  get_elem?-set (x ∷ xs) (suc i) (suc j) w h = ground (arith, get_elem?-set xs i j w h)

  pub get_elem?-set_eq :
      (xs : List A) (i : ℕ) (w : A) {v : A}
      → get_elem? xs i ≡ some v
      → get_elem? (set xs i w) i ≡ some w
  get_elem?-set_eq xs i w h = ground (arith, get_elem?-set xs i i w h)
