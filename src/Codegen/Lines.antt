-- ===== src/Codegen/Lines.antt =====
-- go/src/dropbox/build_tools/codegen/line_writer.go: lines that are indented and formatted late.
use dbx_build_tools.Base.{
  ℕ, zero, suc, ◌≡◌, refl, ◌∙◌, ap, sym, List, [], ◌∷◌, ◌++◌, append_assoc, append-nil, Str, codes,
  str_eq, if◌then◌else◌,
}

-- A Go `int`.
pub data ℤ : Type 0 where
  pos negsuc : ℕ → ℤ

abbrev pub succ : ℤ → ℤ
succ (pos n) = pos (suc n)
succ (negsuc zero) = pos 0
succ (negsuc (suc n)) = negsuc n

abbrev pub pred : ℤ → ℤ
pred (pos zero) = negsuc 0
pred (pos (suc n)) = pos n
pred (negsuc n) = negsuc (suc n)

-- The number of rounds of `for i := 0; i < n; i++`.
abbrev pub rounds : ℤ → ℕ
rounds (pos n) = n
rounds (negsuc n) = 0

-- `V` are the values of a line, which may be pointers: `Fprintf` reads them when the line is written.
pub record Line (V : Type 0) : Type 0 where
  pub indent_str : Str
  pub indent : ℤ
  pub format : Str
  pub values : List V

pub record LineWriter (V : Type 0) : Type 0 where
  pub indent_str : Str
  pub indent : ℤ
  pub content : List (Line V)

unfoldable pub repeat : ℕ → Str → Str
repeat zero s = []
repeat (suc n) s = s ++ repeat n s

module _ {V : Type 0} where
  unfoldable pub new_line_writer : Str → LineWriter V
  new_line_writer indent_str = record { indent_str = indent_str; indent = pos 0; content = [] }

  unfoldable pub push_indent : LineWriter V → LineWriter V
  push_indent w = record w { indent = succ w.indent }

  unfoldable pub pop_indent : LineWriter V → LineWriter V
  pop_indent w = record w { indent = pred w.indent }

  unfoldable pub line : Str → List V → LineWriter V → LineWriter V
  line format values w = record w {
    content =
        w.content
        ++ record { indent_str = w.indent_str; indent = w.indent; format = format; values = values }
          ∷ [];
  }

  module _ (sprintf : Str → List V → Str) where
    -- What `writeTo` adds to the builder.
    unfoldable pub write_to : Line V → Str
    unfolding repeat
    write_to l =
        if str_eq l.format []
        then codes "\n"
        else repeat (rounds l.indent) l.indent_str ++ (sprintf l.format l.values ++ codes "\n")

    unfoldable pub write_all : List (Line V) → Str
    unfolding write_to
    write_all [] = []
    write_all (l ∷ ls) = write_to l ++ write_all ls

    unfoldable pub string : LineWriter V → Str
    unfolding write_all
    string w = write_all w.content

    write_all-append : (ls ms : List (Line V)) → write_all (ls ++ ms) ≡ write_all ls ++ write_all ms
    unfolding write_all
    write_all-append [] ms = refl
    write_all-append (l ∷ ls) ms =
        ap (λ (s : Str). write_to l ++ s) (write_all-append ls ms)
        ∙ sym (append_assoc (write_to l) (write_all ls) (write_all ms))

    -- A line that is written at some depth appears at the end of the text at that depth, whatever
    -- the depth is afterwards.
    string-line :
        (format : Str) (values : List V) (w : LineWriter V)
        → string (line format values w)
          ≡ string w
            ++ write_to (record {
              indent_str = w.indent_str;
              indent = w.indent;
              format = format;
              values = values;
            })
    unfolding string line
    string-line format values w =
        write_all-append w.content _
        ∙ ap (λ (s : Str). write_all w.content ++ s) (unfold write_all in append-nil _)
