-- ===== src/Base/Map.antt =====
-- `map[string]V` as an association list with one entry for each key.
use mathlib.Core.Path.{◌≡◌, refl}
use mathlib.Core.Logic.{◌↔◌}
use mathlib.Core.Bool.{false, ◌||◌}
use mathlib.Core.Option.{Option, none, some}
use mathlib.Core.List.{List, [], ◌∷◌, map}
use native.Mathlib.Omega.{arith}
use dbx_build_tools.Base.Tests.{if◌then◌else◌}
use dbx_build_tools.Base.Strings.{Str, str_eq, str_eq_iff, has}

module _ {ℓ} {V : Type ℓ} where
  -- `v, ok := m[k]`
  unfoldable pub lookup : Str → List (Str × V) → Option V
  lookup k [] = none
  lookup k ((j, v) ∷ m) = if str_eq k j then some v else lookup k m

  -- `m[k] = v`
  unfoldable pub insert : Str → V → List (Str × V) → List (Str × V)
  insert k v [] = (k, v) ∷ []
  insert k v ((j, w) ∷ m) = if str_eq k j then (j, v) ∷ m else (j, w) ∷ insert k v m

  -- `delete(m, k)`
  unfoldable pub delete : Str → List (Str × V) → List (Str × V)
  delete k [] = []
  delete k ((j, w) ∷ m) = let rest = delete k m in if str_eq k j then rest else (j, w) ∷ rest

  abbrev pub domain : List (Str × V) → List Str
  domain m = map (λ e. e.0) m

  pub lookup-insert :
      (k j : Str) (v : V) (m : List (Str × V))
      → lookup j (insert k v m) ≡ (if str_eq j k then some v else lookup j m)
  unfolding lookup insert
  lookup-insert k j v [] = refl
  lookup-insert k j v ((i, w) ∷ m) =
      ground (
        arith,
        str_eq_iff k j,
        str_eq_iff j k,
        str_eq_iff k i,
        str_eq_iff j i,
        lookup-insert k j v m,
      )

  pub lookup-delete :
      (k j : Str) (m : List (Str × V))
      → lookup j (delete k m) ≡ (if str_eq j k then none else lookup j m)
  unfolding lookup delete
  lookup-delete k j [] = ground arith
  lookup-delete k j ((i, w) ∷ m) =
      ground (arith, str_eq_iff j k, str_eq_iff k i, str_eq_iff j i, lookup-delete k j m)

  pub lookup-domain :
      (k : Str) (m : List (Str × V)) → (lookup k m ≡ none) ↔ (has k (domain m) ≡ false)
  unfolding lookup has
  lookup-domain k [] = (λ _. refl, λ _. refl)
  lookup-domain k ((j, w) ∷ m) = ground (arith, lookup-domain k m)

  pub domain-insert :
      (k j : Str) (v : V) (m : List (Str × V))
      → has k (domain (insert j v m)) ≡ (str_eq k j || has k (domain m))
  unfolding has insert
  domain-insert k j v [] = refl
  domain-insert k j v ((i, w) ∷ m) =
      ground (arith, str_eq_iff k i, str_eq_iff k j, str_eq_iff j i, domain-insert k j v m)
