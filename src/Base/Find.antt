-- ===== src/Base/Find.antt =====
-- The functions of Go's packages strings and bytes that find a place in a string.
use Prim.Native.Nat.{ℕ, suc, ◌+◌, ◌-◌}
use mathlib.Core.Path.{◌≡◌, refl, ap}
use mathlib.Core.Logic.{◌≢◌, inl, inr}
use mathlib.Core.Bool.{false, ◌&&◌}
use mathlib.Core.Option.{Option, none, some}
use mathlib.Core.Option
use mathlib.Core.List.{[], ◌∷◌, ◌++◌}
use native.Mathlib.Omega.{arith}
use dbx_build_tools.Base.Tests.{◌==◌, ==_iff, leb, Option-cases, if◌then◌else◌}
use dbx_build_tools.Base.Lists.{length, length-append, take, drop, is_nil}
use dbx_build_tools.Base.Strings.{Str}
use dbx_build_tools.Base.Text.{has_prefix, contains_byte}

-- `bytes.Index`; `none` is -1.
unfoldable pub index : Str → Str → Option ℕ
unfolding has_prefix
index [] p = if is_nil p then some 0 else none
index (c ∷ s) p =
    let rest = index s p in if has_prefix (c ∷ s) p then some 0 else Option.map suc rest

-- `s[lo:hi]`; `none` is a panic.
abbrev pub slice : Str → ℕ → ℕ → Option Str
slice s lo hi = if leb lo hi && leb hi (length s) then some (take (hi - lo) (drop lo s)) else none

-- `bytes.SplitN` at one byte, into two pieces at most; `none` is one piece.
unfoldable pub cut : Str → ℕ → Option (Str × Str)
cut [] b = none
cut (c ∷ s) b =
    let rest = cut s b in if c == b then some ([], s) else Option.map (λ (k, v). (c ∷ k, v)) rest

-- A pattern of two different bytes starts where its first byte does.
pub index-no_byte : (s : Str) (x y : ℕ) → contains_byte s x ≡ false → index s (x ∷ y ∷ []) ≡ none
unfolding index has_prefix contains_byte
index-no_byte [] x y h = refl
index-no_byte (c ∷ s) x y h = ground (arith, index-no_byte s x y (ground (arith, h)))

pub index-skip :
    (s t : Str) (x y : ℕ)
    → contains_byte s x ≡ false
    → index (s ++ t) (x ∷ y ∷ []) ≡ Option.map (λ n. length s + n) (index t (x ∷ y ∷ []))
unfolding index has_prefix contains_byte
index-skip [] t x y h = elim (Option-cases (index t (x ∷ y ∷ []))) [
  | inl e ↦ rw (e) refl
  | inr (n, e) ↦ rw (e) (ap some (omega arith))
]
index-skip (c ∷ s) t x y h =
    let out : (c == x) ≡ false = ground (arith, h) in
    let rest = index-skip s t x y (ground (arith, h)) in
    elim (Option-cases (index t (x ∷ y ∷ []))) [
      | inl e ↦ ground (arith, rest, e, out)
      | inr (n, e) ↦ ground (arith, rest, e, out)
    ]

pub index-first :
    (s t : Str) (x y : ℕ)
    → x ≢ y
    → index s (x ∷ y ∷ []) ≡ none
    → index (s ++ x ∷ y ∷ t) (x ∷ y ∷ []) ≡ some (length s)
unfolding index has_prefix
index-first [] t x y d h = ground (arith, ==_iff x x, ==_iff y y)
index-first (c ∷ []) t x y d h = ground (arith, ==_iff c x, ==_iff x y, ==_iff x x, ==_iff y y)
index-first (c ∷ e ∷ s) t x y d h =
    let rest = index-first (e ∷ s) t x y d in ground (arith, h, rest)

pub take-append : (s t : Str) → take (length s) (s ++ t) ≡ s
take-append [] t = refl
take-append (c ∷ s) t = ap (λ (r : Str). c ∷ r) (take-append s t)

pub drop-append : (s t : Str) → drop (length s) (s ++ t) ≡ t
drop-append [] t = refl
drop-append (c ∷ s) t = drop-append s t

pub cut-first : (k v : Str) (b : ℕ) → contains_byte k b ≡ false → cut (k ++ b ∷ v) b ≡ some (k, v)
unfolding cut contains_byte
cut-first [] v b h = ground (arith, ==_iff b b)
cut-first (c ∷ k) v b h = ground (arith, cut-first k v b (ground (arith, h)), h)

pub append_cancel_left : (s : Str) {t u : Str} → s ++ t ≡ s ++ u → t ≡ u
append_cancel_left [] h = h
append_cancel_left (c ∷ s) h = append_cancel_left s (ground (arith, h))

pub append_cancel_right : (s t u : Str) → s ++ u ≡ t ++ u → s ≡ t
append_cancel_right [] [] u h = refl
append_cancel_right [] (c ∷ t) u h = absurd (omega (arith, ap length h, length-append t u))
append_cancel_right (c ∷ s) [] u h = absurd (omega (arith, ap length h, length-append s u))
append_cancel_right (c ∷ s) (d ∷ t) u h =
    let rest : s ≡ t = append_cancel_right s t u (ground (arith, h)) in ground (arith, h, rest)
