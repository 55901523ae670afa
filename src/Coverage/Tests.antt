-- ===== src/Coverage/Tests.antt =====
-- Two blocks that share a line, for go/src/dropbox/build_tools/gocov2cobertura/gocov2cobertura.go.
use dbx_build_tools.Base.{ℕ, Memᴰ, ◌≡◌, some, none, arith, ◌%◌, refl, List, [], ◌∷◌}
use dbx_build_tools.Coverage.{
  CoverBlock, hits_at, line_hits, class_lines, total_hits, two_64, hits_at-total, max_int,
  AreCounted, line_hits_endless,
}

abbrev shared : List CoverBlock
shared =
    record { line0 = 1; line1 = 2; stmts = 1; count = 3 }
    ∷ record { line0 = 2; line1 = 3; stmts = 1; count = 4 }
    ∷ []

-- Each line of the blocks is counted within four tests of the loop.
shared_counted : AreCounted 4 shared
shared_counted =
    ((omega arith, omega arith, omega arith), ((omega arith, omega arith, omega arith), tt))

hits_at-total_example :
    (m : List (ℕ × ℕ)) × (line_hits 4 shared [] ≡ some m)
    × (hits_at 2 m % two_64 ≡ total_hits 2 shared % two_64)
hits_at-total_example = hits_at-total 2 4 shared (omega arith) shared_counted

shared_run : class_lines 4 (λ l. l) shared ≡ some ((1, 3) ∷ (2, 7) ∷ (3, 4) ∷ [])
unfolding class_lines hits_at
shared_run = refl

-- A block that ends in the last line of all, after another.
abbrev last_line : CoverBlock
last_line = record { line0 = 1; line1 = max_int; stmts = 1; count = 3 }

line_hits_endless_example : line_hits 1000000 (last_line ∷ shared) [] ≡ none
line_hits_endless_example =
    line_hits_endless 1000000 (last_line ∷ shared) last_line [] (Memᴰ.head refl) refl
