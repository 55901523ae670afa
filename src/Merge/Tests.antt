-- ===== src/Merge/Tests.antt =====
-- Two small BUILD files, for go/src/dropbox/build_tools/build-merge/main.go.

use dbx_build_tools.Base.{
  ℕ, ◌≡◌, refl, true, List, [], ◌∷◌, Str, codes, str_eq, sort_strings, lookup, insert, has_prefix,
  has,
}
use dbx_build_tools.Base.Result.{ok}
use dbx_build_tools.Merge.Expr.{
  Expr, Exprs, nil, cons, ident, string_lit, list, binary, call, assign, other, Assign, no_comments,
  maybe_merge_expr, maybe_merge_expr_sum, summands,
}
use dbx_build_tools.Merge.Parse.{Parsed, Store, parse}
use dbx_build_tools.Merge.File.{Output, merge}

abbrev lists : Expr × Exprs
lists = (list (cons (string_lit (codes "a")) nil), cons (string_lit (codes "b")) nil)

merge_lists :
    maybe_merge_expr lists.0 (list lists.1) (codes "srcs") (codes "additional_srcs")
    ≡ ok (binary (lists.0) (codes "+") true (list lists.1))
unfolding maybe_merge_expr
merge_lists = refl

maybe_merge_expr_sum_example :
    summands (binary (lists.0) (codes "+") true (list lists.1)) ≡ lists.0 ∷ list lists.1 ∷ []
maybe_merge_expr_sum_example =
    maybe_merge_expr_sum lists.0 lists.1 (codes "srcs") (codes "additional_srcs")
      (binary (lists.0) (codes "+") true (list lists.1)) merge_lists

abbrev names : List Assign
names =
    record { lhs = ident (codes "name"); rhs = string_lit (codes "t") }
    ∷ record { lhs = ident (codes "name"); rhs = string_lit (codes "t") }
    ∷ []

abbrev rule : ℕ → Expr
rule r = call (ident (codes "rule")) (cons (assign r) nil) no_comments

-- Both files declare the target `t`, and the second has one more statement.
abbrev first : Parsed × Store
first = parse no_comments (rule 0 ∷ []) (record { assigns = names; mergeables = [] })

abbrev second : Parsed × Store
second = parse no_comments (rule 1 ∷ other 7 ∷ []) first.1

abbrev same_order : List Str → List Str
same_order l = l

abbrev joined : Output
joined = record {
  stmts = rule 1 ∷ other 7 ∷ [];
  store = record {
    assigns = names;
    mergeables =
        record { stmt = rule 0; merged = true; target_name = codes "t" }
        ∷ record { stmt = rule 1; merged = true; target_name = codes "t" }
        ∷ record { stmt = other 7; merged = true; target_name = [] }
        ∷ [];
  };
}

merge-joined : merge same_order first.0 second.0 second.1 ≡ ok (no_comments, joined)
unfolding merge parse str_eq sort_strings lookup insert has_prefix has
merge-joined = refl
