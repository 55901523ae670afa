-- ===== src/Junit/Events/Tabs.antt =====
-- `expandTabs` of go/src/dropbox/build_tools/gojunit/gojunit.go.
use native.Mathlib.Nat.{mod-add-mod, mod-lt, mod_self}
use dbx_build_tools.Base.{
  ℕ, zero, suc, ◌+◌, ◌-◌, ◌%◌, ◌<◌, ◌≡◌, refl, sym, ap, ◌∙◌, false, [], ◌∷◌, ◌++◌, ◌==◌, Str,
  length, length-append, length-replicate, replicate, contains_byte, contains_byte-append, arith,
  Bool-cases, inl, inr,
}
use dbx_build_tools.Junit.Events.{tabs_loop, expand_tabs}

tabs_loop-append :
    (n : ℕ) (s t buffer : Str) → tabs_loop n (s ++ t) buffer ≡ tabs_loop n t (tabs_loop n s buffer)
unfolding tabs_loop
tabs_loop-append n [] t buffer = refl
tabs_loop-append n (c ∷ s) t buffer = tabs_loop-append n s t _

spaces_hold_no_tab : (k : ℕ) → contains_byte (replicate k 32) 9 ≡ false
unfolding contains_byte
spaces_hold_no_tab zero = refl
spaces_hold_no_tab (suc k) = ground (arith, spaces_hold_no_tab k)

tabs_loop-no_tab :
    (n : ℕ) (s buffer : Str)
    → contains_byte buffer 9 ≡ false
    → contains_byte (tabs_loop n s buffer) 9 ≡ false
unfolding tabs_loop
tabs_loop-no_tab n [] buffer h = h
tabs_loop-no_tab n (c ∷ s) buffer h = elim (Bool-cases (c == 9)) [
  | inl e ↦
      let spaces : Str = replicate (n - length buffer % n) 32 in
      rw (e) (
        tabs_loop-no_tab n s (buffer ++ spaces) (
          ground (
            arith,
            contains_byte-append buffer spaces 9,
            spaces_hold_no_tab (n - length buffer % n),
            h,
          )))
  | inr e ↦ rw (e) (
      tabs_loop-no_tab n s (buffer ++ c ∷ [])
        (unfold contains_byte in ground (arith, contains_byte-append buffer (c ∷ []) 9, h, e)))
]

mod_stop : (n k : ℕ) → 0 < n → (k + (n - k % n)) % n ≡ 0
mod_stop n k h =
    sym (mod-add-mod k n (n - k % n)) ∙ ap (λ j. j % n) (omega (arith, mod-lt k h)) ∙ mod_self n

-- The expanded text of a line has no tab, and what follows a tab starts at a column that is a multiple
-- of the tab length.
expand_tabs-columns :
    (n : ℕ) (s : Str)
    → 0 < n
    → (contains_byte (expand_tabs s n) 9 ≡ false) × (length (expand_tabs (s ++ 9 ∷ []) n) % n ≡ 0)
unfolding expand_tabs
expand_tabs-columns n s h = (
  tabs_loop-no_tab n s [] (unfold contains_byte in refl),
  let before : Str = tabs_loop n s [] in
      ap (λ (l : Str). length l % n) (tabs_loop-append n s (9 ∷ []) [] ∙ unfold tabs_loop in refl)
      ∙ ap (λ j. j % n)
          (length-append before (replicate (n - length before % n) 32)
            ∙ ap (λ j. length before + j) (length-replicate (n - length before % n) 32))
      ∙ mod_stop n (length before) h,
)
