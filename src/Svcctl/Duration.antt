-- ===== src/Svcctl/Duration.antt =====
-- `FmtDuration` of go/src/dropbox/build_tools/svcctl/service.go. A duration is the 64-bit word of its
-- nanoseconds, of which the upper half stands for negative numbers.
use dbx_build_tools.Base.{
  ℕ, ◌+◌, ◌-◌, ◌*◌, ◌/◌, ◌%◌, ◌<◌, ◌≡◌, Bool, not, ◌++◌, Str, codes, ltb, if◌then◌else◌, arith,
}

-- `d < 0`
unfoldable pub is_negative : ℕ → Bool
is_negative d = not (ltb d 9223372036854775808)

-- The seconds and milliseconds of `u`, which is negated if `neg`.
unfoldable pub fmt_parts : ℕ → ℕ × ℕ
unfolding is_negative
fmt_parts d =
    let u = if is_negative d then (18446744073709551616 - d) % 18446744073709551616 else d in
    (u / 1000000000, u / 1000000 % 1000)

-- `%d.%03ds` with a sign; the two numbers are printed by Go's package fmt.
unfoldable pub fmt_duration : (ℕ → Str) → (ℕ → Str) → ℕ → Str
unfolding fmt_parts
fmt_duration print_int print_padded d =
    let (secs, msecs) = fmt_parts d in
    let str = print_int secs ++ (codes "." ++ (print_padded msecs ++ codes "s")) in
    if is_negative d then codes "-" ++ str else str

-- The number of nanoseconds without its sign.
abbrev pub magnitude : ℕ → ℕ
magnitude d = if is_negative d then 18446744073709551616 - d else d

-- `FmtDuration` prints the magnitude of a duration in milliseconds, rounded down, with fewer than
-- 1000 of them after the point; this holds for the least duration too, whose negation overflows.
fmt_parts_exact :
    (d : ℕ)
    → d < 18446744073709551616
    → ((fmt_parts d).0 * 1000 + (fmt_parts d).1 ≡ magnitude d / 1000000) × ((fmt_parts d).1 < 1000)
unfolding fmt_parts is_negative
fmt_parts_exact d h = (ground (arith, h), ground (arith, h))
