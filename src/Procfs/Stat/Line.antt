-- ===== src/Procfs/Stat/Line.antt =====
-- A line of /proc/<pid>/stat, as `ReadProcStats` of go/src/dropbox/procfs/stat.go reads it.
use dbx_build_tools.Base.{
  ℕ, ◌+◌, ◌-◌, ◌≡◌, refl, sym, ap, ◌∙◌, true, false, Option, none, some, [], ◌∷◌, ◌++◌, Str, codes,
  index, slice, drop, leb, length, length-append, append_assoc, contains_byte, has_prefix,
  index-skip, index-first, take-append, drop-append, arith, ◌&&◌,
}
use dbx_build_tools.Procfs.Stat.{Scanned, stat_of, parse_rest, parse_proc_stats}

slice-append :
    (a b c : Str) (lo hi : ℕ)
    → lo ≡ length a
    → hi ≡ length a + length b
    → slice (a ++ (b ++ c)) lo hi ≡ some b
slice-append a b c lo hi e f =
    let long : length (a ++ (b ++ c)) ≡ length a + (length b + length c) =
      length-append a (b ++ c) ∙ ap (λ n. length a + n) (length-append b c) in
    let fits : (leb lo hi && leb hi (length (a ++ (b ++ c)))) ≡ true = ground (arith, long, e, f) in
    let span : hi - lo ≡ length b = omega (arith, e, f) in
    rw (fits, span, e, drop-append a (b ++ c), take-append b c) refl

append_two : (a r : Str) (x y : ℕ) → a ++ x ∷ y ∷ r ≡ (a ++ x ∷ y ∷ []) ++ r
append_two [] r x y = refl
append_two (c ∷ a) r x y = ap (λ (l : Str). c ∷ l) (append_two a r x y)

module _ (atoi : Str → Option ℕ) (scan : Str → Option Scanned) where
  -- The line that the kernel writes, where the pid has no space and no bracket and the command does
  -- not hold the bytes ") ", is read back: its pid, its whole command, and the fields that follow.
  pub parse_proc_stats-line :
      (pid : ℕ) (digits cmd fields : Str)
      → atoi digits ≡ some pid
      → contains_byte digits 32 ≡ false
      → contains_byte digits 41 ≡ false
      → index cmd (codes ") ") ≡ none
      → parse_proc_stats atoi scan (digits ++ (codes " (" ++ (cmd ++ (codes ") " ++ fields))))
        ≡ stat_of atoi scan pid cmd (scan fields)
  unfolding parse_proc_stats parse_rest
  parse_proc_stats-line pid digits cmd fields parsed spaceless shut free =
      let line : Str = digits ++ (codes " (" ++ (cmd ++ (codes ") " ++ fields))) in
      let first : index line (codes " (") ≡ some (length digits) =
        index-skip digits (codes " (" ++ (cmd ++ (codes ") " ++ fields))) 32 40 spaceless
        ∙ unfold index has_prefix in ap some (omega arith) in
      let second : index line (codes ") ") ≡ some (length digits + 2 + length cmd) =
        index-skip digits (codes " (" ++ (cmd ++ (codes ") " ++ fields))) 41 32 shut
        ∙ unfold index has_prefix in
          rw (index-first cmd fields 41 32 (omega arith) free) (ap some (omega arith)) in
      let rest : Str = codes ") " ++ fields in
      let piece : slice line (length digits + 2) (length digits + 2 + length cmd) ≡ some cmd =
        ap (λ (l : Str). slice l (length digits + 2) (length digits + 2 + length cmd))
          (append_two digits (cmd ++ rest) 32 40)
        ∙ slice-append (digits ++ codes " (") cmd rest (length digits + 2)
            (length digits + 2 + length cmd) (sym (length-append digits (codes " (")))
            (omega (arith, length-append digits (codes " ("))) in
      let before : Str = (digits ++ codes " (") ++ (cmd ++ codes ") ") in
      let tail : drop (length digits + 2 + length cmd + 2) line ≡ fields =
        ap (λ n. drop n line)
          (omega (
            arith,
            length-append (digits ++ codes " (") (cmd ++ codes ") "),
            length-append digits (codes " ("),
            length-append cmd (codes ") "),
          ))
        ∙ ap (λ (l : Str). drop (length before) l)
            (append_two digits (cmd ++ rest) 32 40
              ∙ ap (λ (l : Str). (digits ++ codes " (") ++ l) (append_two cmd fields 41 32)
              ∙ sym (append_assoc (digits ++ codes " (") (cmd ++ codes ") ") fields))
        ∙ drop-append before fields in
      ground (
        arith,
        first,
        second,
        piece,
        tail,
        take-append digits (codes " (" ++ (cmd ++ rest)),
        parsed,
      )
