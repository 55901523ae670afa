-- ===== src/Codegen/Alias.antt =====
-- The loop that finds an unused alias, which go/src/dropbox/build_tools/codegen/go_writer.go and
-- py_writer.go share.
use dbx_build_tools.Base.{
  ℕ, zero, suc, ◌≤◌, ◌<◌, ◌==◌, ==_iff, ◌≡◌, ◌≢◌, refl, sym, ◌⊎◌, inl, inr, Bool, true, false,
  Option, none, some, List, [], ◌∷◌, ◌++◌, Str, str_eq, str_eq_iff, has, length, Bool-cases,
  if◌then◌else◌, arith,
}

module _ (print_int : ℕ → Str) where
  -- `name`, or `fmt.Sprintf("%s%d", name, count)` for a positive count.
  unfoldable pub candidate : Str → ℕ → Str
  candidate name count = if count == 0 then name else name ++ print_int count

  -- The inner loop; none means that the fuel ran out.
  unfoldable pub alias_loop : ℕ → Str → ℕ → List Str → Option Str
  unfolding candidate
  alias_loop zero name count aliases = none
  alias_loop (suc fuel) name count aliases =
      let rest = alias_loop fuel name (suc count) aliases in
      if has (candidate name count) aliases then rest else some (candidate name count)

  -- The loop finds the alias within one round for each alias in use and one more.
  unfoldable pub pick_alias : Str → ℕ → List Str → Option Str
  unfolding alias_loop
  pick_alias name count aliases = alias_loop (suc (length aliases)) name count aliases

remove : Str → List Str → List Str
remove k [] = []
remove k (x ∷ xs) = let rest = remove k xs in if str_eq k x then rest else x ∷ rest

has-remove : (k j : Str) (xs : List Str) → has j (remove k xs) ≡ true ⊎ (has j xs ≡ false) ⊎ (j ≡ k)
unfolding remove has
has-remove k j [] = inr (inl refl)
has-remove k j (x ∷ xs) = ground (arith, has-remove k j xs, str_eq_iff k x, str_eq_iff j x)

length-remove : (k : Str) (xs : List Str) → length (remove k xs) ≤ length xs
unfolding remove
length-remove k [] = omega arith
length-remove k (x ∷ xs) = ground (arith, length-remove k xs)

length-remove-has : (k : Str) (xs : List Str) → has k xs ≡ true → length (remove k xs) < length xs
unfolding remove has
length-remove-has k [] h = absurd (cc)
length-remove-has k (x ∷ xs) h = ground (arith, length-remove k xs, length-remove-has k xs, h)

append_cancel : (s a b : Str) → s ++ a ≡ s ++ b → a ≡ b
append_cancel [] a b h = h
append_cancel (c ∷ s) a b h = append_cancel s a b (ground (arith, h))

append_longer : (s a : Str) → s ++ a ≡ s → a ≡ []
append_longer [] a h = h
append_longer (c ∷ s) a h = append_longer s a (ground (arith, h))

-- Decimal numbers: not empty, and different for different numbers.
pub record IsPrinting (print_int : ℕ → Str) : Type 0 where
  pub nonempty : (n : ℕ) → print_int n ≢ []
  pub injective : (m n : ℕ) → print_int m ≡ print_int n → m ≡ n

module _ (print_int : ℕ → Str) (p : IsPrinting print_int) where
  candidate_injective :
      (name : Str) (m n : ℕ) → candidate print_int name m ≡ candidate print_int name n → m ≡ n
  unfolding candidate
  candidate_injective name m n h = elim (Bool-cases (m == 0)) [
    | inl e ↦ elim (Bool-cases (n == 0)) [
      | inl f ↦ omega (arith, (==_iff m 0).0 e, (==_iff n 0).0 f)
      | inr f ↦ absurd (p.nonempty n (append_longer name (print_int n) (sym (rw (e, f) at h))))
    ]
    | inr e ↦ elim (Bool-cases (n == 0)) [
      | inl f ↦ absurd (p.nonempty m (append_longer name (print_int m) (rw (e, f) at h)))
      | inr f ↦ p.injective m n (append_cancel name (print_int m) (print_int n) (rw (e, f) at h))
    ]
  ]

  -- `left` holds the aliases in use that a later round can still meet.
  alias_loop_lem :
      (fuel : ℕ) (name : Str) (count : ℕ) (aliases left : List Str)
      → ((n : ℕ)
          → count ≤ n
          → has (candidate print_int name n) aliases ≡ true
          → has (candidate print_int name n) left ≡ true)
      → length left < fuel
      → (alias : Str) × (alias_loop print_int fuel name count aliases ≡ some alias)
        × (has alias aliases ≡ false)
  unfolding alias_loop
  alias_loop_lem zero name count aliases left inside l = absurd (omega arith)
  alias_loop_lem (suc fuel) name count aliases left inside l =
      elim (Bool-cases (has (candidate print_int name count) aliases)) [
        | inr e ↦ (candidate print_int name count, rw (e, alias_loop) refl, e)
        | inl e ↦
            let now = candidate print_int name count in
            let (alias, r, free) =
              alias_loop_lem fuel name (suc count) aliases (remove now left)
                (λ n m h. elim (has-remove now (candidate print_int name n) left) [
                  | inl still ↦ still
                  | inr (inl gone) ↦ absurd (clash (inside n (omega arith) h) gone)
                  | inr (inr same) ↦ absurd (omega (arith, candidate_injective name n count same))
                ])
                (omega (arith, length-remove-has now left (inside count (omega arith) e))) in
            (alias, rw (e, alias_loop) r, free)
      ]
    where
      clash : {b : Bool} → b ≡ true → b ≡ false → ⊥
      clash x y = cc

  pub pick_alias_lem :
      (name : Str) (count : ℕ) (aliases : List Str)
      → (alias : Str) × (pick_alias print_int name count aliases ≡ some alias)
        × (has alias aliases ≡ false)
  unfolding pick_alias
  pick_alias_lem name count aliases =
      alias_loop_lem (suc (length aliases)) name count aliases aliases (λ n m h. h) (omega arith)
