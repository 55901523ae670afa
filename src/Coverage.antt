-- ===== src/Coverage.antt =====
-- The converter of coverage profiles, go/src/dropbox/build_tools/gocov2cobertura/gocov2cobertura.go.
-- An `int` is its 64 bits; the regular expression of a line and the sorting of line numbers are
-- parameters.
mod Tests
use mathlib.Core.Option
use dbx_build_tools.Base.{
  ℕ, zero, suc, ◌+◌, ◌-◌, ◌%◌, ◌≡◌, refl, ◌∙◌, Bool, true, false, not, ◌&&◌, ◌||◌, ltb, Option,
  none, some, List, [], ◌∷◌, ◌++◌, map, Str, codes, str_eq, has_prefix, drop, lookup, insert,
  is_nil, ◌==◌, ==_iff, if◌then◌else◌, arith, Bool-cases, inl, inr, ◌≤◌, ◌<◌, All, Memᴰ, Memᴰ-cons,
  not-Memᴰ-nil, Option-cases, ap, sym, subst,
}
use dbx_build_tools.Base.Result.{Result, ok, err, panic, ◌>>=◌}

-- The columns are read and not used.
pub record CoverBlock : Type 0 where
  pub line0 : ℕ
  pub line1 : ℕ
  pub stmts : ℕ
  pub count : ℕ

pub record CoverFile : Type 0 where
  pub mode : Str
  pub blocks : List CoverBlock

pub data ProfileError : Type 0 where
  bad_mode_line unexpected_format : Str → ProfileError

-- The loop of `parseProfile`. The pattern of a line gives its file and its block, or a panic when a
-- number is too large for an `int`.
unfoldable pub parse_loop :
    (Str → Option (Result ProfileError (Str × CoverBlock)))
    → List Str
    → Str
    → List (Str × CoverFile)
    → Result ProfileError (List (Str × CoverFile))
parse_loop match [] mode files = ok files
parse_loop match (line ∷ lines) mode files =
    let first = parse_loop match lines (drop 6 line) files in
    if is_nil mode
    then (if not (has_prefix line (codes "mode: ")) || str_eq line (codes "mode: ")
        then err (bad_mode_line line)
        else first)
    else elim (match line) [
      | none ↦ err (unexpected_format line)
      | some found ↦ found >>= λ (name, block).
          let p : CoverFile = elim (lookup name files) [
            | none ↦ record { mode = mode; blocks = [] }
            | some old ↦ old
          ] in
          parse_loop match lines mode
            (insert name (record p { blocks = p.blocks ++ block ∷ [] }) files)
    ]

abbrev pub two_64 : ℕ
two_64 = 18446744073709551616

abbrev pub max_int : ℕ
max_int = 9223372036854775807

-- `lineHits[lineNo]`
unfoldable pub hits_at : ℕ → List (ℕ × ℕ) → ℕ
hits_at n [] = 0
hits_at n ((k, v) ∷ m) = if n == k then v else hits_at n m

-- `lineHits[lineNo] += hits`
unfoldable pub add_hits : ℕ → ℕ → List (ℕ × ℕ) → List (ℕ × ℕ)
add_hits n h [] = (n, h % two_64) ∷ []
add_hits n h ((k, v) ∷ m) =
    let rest = add_hits n h m in if n == k then (k, (v + h) % two_64) ∷ m else (k, v) ∷ rest

-- The order of two `int`s, each its 64 bits: with the sign bit turned it is that of the numbers.
abbrev pub signed : ℕ → ℕ
signed n = (n + max_int + 1) % two_64

-- `for lineNo := block.line0; lineNo <= block.line1; lineNo++`, on fuel; `none` means that it ran out.
unfoldable pub range_loop : ℕ → ℕ → ℕ → ℕ → List (ℕ × ℕ) → Option (List (ℕ × ℕ))
unfolding add_hits
range_loop zero line_no line1 hits m = none
range_loop (suc fuel) line_no line1 hits m =
    let rest = range_loop fuel ((line_no + 1) % two_64) line1 hits (add_hits line_no hits m) in
    if ltb (signed line1) (signed line_no) then some m else rest

-- The loop over the blocks of a file.
unfoldable pub line_hits : ℕ → List CoverBlock → List (ℕ × ℕ) → Option (List (ℕ × ℕ))
unfolding range_loop
line_hits fuel [] m = some m
line_hits fuel (b ∷ blocks) m = elim (range_loop fuel b.line0 b.line1 b.count m) [
  | none ↦ none
  | some m' ↦ line_hits fuel blocks m'
]

-- The lines of a class, each with its number and its hits.
unfoldable pub class_lines : ℕ → (List ℕ → List ℕ) → List CoverBlock → Option (List (ℕ × ℕ))
unfolding line_hits
class_lines fuel sort blocks =
    Option.map (λ m. map (λ n. (n, hits_at n m)) (sort (map (λ e. e.0) m)))
      (line_hits fuel blocks [])

-- The sum of the counts of the blocks that a line lies in, both ends included.
abbrev pub total_hits : ℕ → List CoverBlock → ℕ
total_hits n [] = 0
total_hits n (b ∷ blocks) =
    (if not (ltb n b.line0) && not (ltb b.line1 n) then b.count else 0) + total_hits n blocks

hits_at-add_hits :
    (n i h : ℕ) (m : List (ℕ × ℕ))
    → hits_at n (add_hits i h m) % two_64 ≡ (hits_at n m + (if n == i then h else 0)) % two_64
unfolding hits_at add_hits
hits_at-add_hits n i h [] = ground (arith, ==_iff n i)
hits_at-add_hits n i h ((k, v) ∷ m) =
    ground (arith, hits_at-add_hits n i h m, ==_iff n i, ==_iff n k, ==_iff i k)

hits_at-range_loop :
    (n fuel i line1 h : ℕ) (m : List (ℕ × ℕ))
    → i ≤ max_int
    → line1 < max_int
    → line1 + 1 < i + fuel
    → 0 < fuel
    → (m' : List (ℕ × ℕ)) × (range_loop fuel i line1 h m ≡ some m')
      × (hits_at n m' % two_64
          ≡ (hits_at n m + (if not (ltb n i) && not (ltb line1 n) then h else 0)) % two_64)
unfolding range_loop
hits_at-range_loop n zero i line1 h m low high enough some_fuel = absurd (omega (arith, some_fuel))
hits_at-range_loop n (suc fuel) i line1 h m low high enough some_fuel =
    elim (Bool-cases (ltb line1 i)) [
      | inl e ↦ (m, ground (arith, e, low, high), ground (arith, e))
      | inr e ↦
          let le : i ≤ line1 = ground (arith, e) in
          let next : (i + 1) % two_64 ≡ suc i = omega (arith, le, high) in
          let (m', run, same) =
            hits_at-range_loop n fuel (suc i) line1 h (add_hits i h m) (omega (arith, le, high))
              high (omega (arith, enough)) (omega (arith, enough, le)) in
          (
            m',
            rw next (ground (arith, run, low, high, le)),
            ground (arith, same, hits_at-add_hits n i h m, ==_iff n i, le),
          )
    ]

-- The lines of a block are not negative, its last line is less than the largest `int`, and there is
-- fuel for them.
abbrev pub AreCounted : ℕ → List CoverBlock → Type 0
AreCounted fuel =
    All (λ b. (b.line0 ≤ max_int) × (b.line1 < max_int) × (b.line1 + 1 < b.line0 + fuel))

hits_at-line_hits :
    (n fuel : ℕ) (blocks : List CoverBlock) (m : List (ℕ × ℕ))
    → 0 < fuel
    → AreCounted fuel blocks
    → (m' : List (ℕ × ℕ)) × (line_hits fuel blocks m ≡ some m')
      × (hits_at n m' % two_64 ≡ (hits_at n m + total_hits n blocks) % two_64)
unfolding line_hits
hits_at-line_hits n fuel [] m some_fuel all = (m, refl, ground arith)
hits_at-line_hits n fuel (b ∷ blocks) m some_fuel ((low, high, enough), all) =
    let (m1, run1, same1) =
      hits_at-range_loop n fuel b.line0 b.line1 b.count m low high enough some_fuel in
    let (m2, run2, same2) = hits_at-line_hits n fuel blocks m1 some_fuel all in
    (m2, rw (run1, line_hits) run2, ground (arith, same1, same2))

-- When the lines of the blocks of a file are not negative, and their last lines are less than the
-- largest `int`, then with fuel for each block the loops end, and the hits of a line are the sum of
-- the counts of all blocks of the file that the line lies in, modulo 2^64.
pub hits_at-total :
    (n fuel : ℕ) (blocks : List CoverBlock)
    → 0 < fuel
    → AreCounted fuel blocks
    → (m : List (ℕ × ℕ)) × (line_hits fuel blocks [] ≡ some m)
      × (hits_at n m % two_64 ≡ total_hits n blocks % two_64)
unfolding hits_at
hits_at-total n fuel blocks some_fuel all =
    let (m, run, same) = hits_at-line_hits n fuel blocks [] some_fuel all in
    (m, run, ground (arith, same))

range_loop_endless : (fuel i h : ℕ) (m : List (ℕ × ℕ)) → range_loop fuel i max_int h m ≡ none
unfolding range_loop
range_loop_endless zero i h m = refl
range_loop_endless (suc fuel) i h m =
    ground (arith, range_loop_endless fuel ((i + 1) % two_64) h (add_hits i h m))

-- If the last line of some block of a file is the largest `int`, then the loops over the blocks never
-- end: no fuel is enough.
pub line_hits_endless :
    (fuel : ℕ) (blocks : List CoverBlock) (b : CoverBlock) (m : List (ℕ × ℕ))
    → Memᴰ b blocks
    → b.line1 ≡ max_int
    → line_hits fuel blocks m ≡ none
unfolding line_hits
line_hits_endless fuel [] b m here last = absurd (not-Memᴰ-nil here)
line_hits_endless fuel (x ∷ blocks) b m here last = elim ((Memᴰ-cons b x blocks).0 here) [
  | inl e ↦
      let top : x.line1 ≡ max_int = ap (λ (c : CoverBlock). c.line1) (sym e) ∙ last in
      let e : range_loop fuel x.line0 x.line1 x.count m ≡ none =
        subst (λ t. range_loop fuel x.line0 t x.count m ≡ none) (sym top)
          (range_loop_endless fuel x.line0 x.count m) in
      rw (e, line_hits) refl
  | inr later ↦ elim (Option-cases (range_loop fuel x.line0 x.line1 x.count m)) [
    | inl e ↦ rw (e, line_hits) refl
    | inr (m', e) ↦ rw (e, line_hits) (line_hits_endless fuel blocks b m' later last)
  ]
]
