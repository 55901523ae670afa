-- ===== src/GenBuild/Targets.antt =====
-- go/src/dropbox/build_tools/gen-build-go/lib/targetlist.go: the order of the targets in a list.
use dbx_build_tools.Base.{
  ℕ, ◌≡◌, ◌≢◌, ◌↔◌, Bool, true, false, Str, codes, has_prefix, ltb, str_lt, str_lt-total,
  str_lt-asym, str_lt_trans, if◌then◌else◌, arith,
}

unfoldable pub priority : Str → ℕ
priority target =
    if has_prefix target (codes "//") then 3 else if has_prefix target (codes ":") then 2 else 1

unfoldable pub less : Str → Str → Bool
unfolding priority str_lt
less s t =
    let p1 = priority s in
    let p2 = priority t in if ltb p1 p2 then true else if ltb p2 p1 then false else str_lt s t

-- Of two different targets, `Less` puts exactly one before the other, and no target before itself.
less_order : (s t : Str) → (less s t ≡ true) ↔ ((less t s ≡ false) × (s ≢ t))
unfolding less
less_order s t = ground (arith, str_lt-total s t, str_lt-asym s t, str_lt-asym t s)

-- `Less` is transitive.
less_trans : (s t u : Str) → less s t ≡ true → less t u ≡ true → less s u ≡ true
unfolding less
less_trans s t u h k = ground (arith, str_lt_trans s t u, h, k)
