-- ===== src/Merge/Call.antt =====
-- `mergeCallExpr` and `mergeLicenses` of go/src/dropbox/build_tools/build-merge/main.go.
use dbx_build_tools.Base.{
  ℕ, Bool, true, false, ◌&&◌, Option, none, some, List, [], ◌∷◌, ◌++◌, Str, codes, str_eq, has,
  has_prefix, drop, length, set, get_elem?, lookup, insert, domain, if◌then◌else◌,
}
use dbx_build_tools.Base.Result.{Result, ok, panic, ◌>>=◌}
use dbx_build_tools.Merge.Expr.{
  Comments, Expr, Exprs, nil, cons, ident, string_lit, list, call, assign, Assign, MergeError,
  maybe_merge_expr,
}

abbrev pub exprs_of : List Expr → Exprs
exprs_of [] = nil
exprs_of (e ∷ es) = cons e (exprs_of es)

abbrev pub ident_name : Expr → Option Str
ident_name (ident name) = some name
ident_name _ = none

-- The name of the assignment that a pointer stands for, if its left side is a name.
abbrev pub name_at : List Assign → ℕ → Option Str
name_at assigns r = elim (get_elem? assigns r) [ none ↦ none | some a ↦ ident_name a.lhs ]

-- The pointer and the name of an argument `name = value`.
abbrev pub named_arg : List Assign → Expr → Option (ℕ × Str)
named_arg assigns (assign r) = elim (name_at assigns r) [ none ↦ none | some name ↦ some (r, name) ]
named_arg assigns _ = none

-- The loop over `call2.List`: `overrideArgs` and `additionalArgs`.
unfoldable pub classify :
    List Assign → Exprs → List (Str × ℕ) → List (Str × ℕ) → List (Str × ℕ) × List (Str × ℕ)
classify assigns nil overrides additional = (overrides, additional)
classify assigns (cons arg args) overrides additional = elim (named_arg assigns arg) [
  | none ↦ classify assigns args overrides additional
  | some (r, name) ↦
      let more = classify assigns args overrides (insert name r additional) in
      let others = classify assigns args (insert name r overrides) additional in
      if has_prefix name (codes "additional_") then more else others
]

-- The local variables of `mergeCallExpr` that its loops change, with the store.
pub record Merging : Type 0 where
  pub used : List Str
  pub assigns : List Assign
  pub out : List Expr

abbrev pub add_out : Expr → Merging → Merging
add_out e s = record s { out = s.out ++ e ∷ [] }

abbrev pub use_name : Str → Merging → Merging
use_name name s = record s { used = name ∷ s.used }

abbrev pub additional_key : Str → Str
additional_key name = codes "additional_" ++ name

-- `assign.RHS = newExpr`
abbrev pub set_rhs : ℕ → Expr → List Assign → List Assign
set_rhs r e assigns = elim (get_elem? assigns r) [
  | none ↦ assigns
  | some a ↦ set assigns r (record a { rhs = e })
]

-- `maybeMergeAdditionalArg`
unfoldable pub merge_additional : Str → ℕ → List (Str × ℕ) → Merging → Result MergeError Merging
merge_additional name r additional s = elim (lookup (additional_key name) additional) [
  | none ↦ ok s
  | some add ↦
      let s' = use_name (additional_key name) s in
      elim (get_elem? s.assigns r) [
        | none ↦ panic
        | some a ↦ elim (get_elem? s.assigns add) [
          | none ↦ panic
          | some b ↦ maybe_merge_expr a.rhs b.rhs name (additional_key name) >>= λ e.
              ok (record s' { assigns = set_rhs r e s.assigns })
        ]
      ]
]

-- The loop over `call1.List`.
unfoldable pub args_loop :
    Exprs → List (Str × ℕ) → List (Str × ℕ) → Merging → Result MergeError Merging
unfolding merge_additional
args_loop nil overrides additional s = ok s
args_loop (cons arg args) overrides additional s = elim (named_arg s.assigns arg) [
  | none ↦ args_loop args overrides additional (add_out arg s)
  | some (r, name) ↦ elim (lookup name overrides) [
    | none ↦ merge_additional name r additional s >>= λ s'.
        args_loop args overrides additional (add_out (assign r) s')
    | some o ↦ merge_additional name o additional (use_name name s) >>= λ s'.
        args_loop args overrides additional (add_out (assign o) s')
  ]
]

-- The loop over `overrideArgs`, whose names are given in the order in which Go walks the map.
unfoldable pub overrides_loop :
    List Str → List (Str × ℕ) → List (Str × ℕ) → Merging → Result MergeError Merging
unfolding merge_additional
overrides_loop [] overrides additional s = ok s
overrides_loop (name ∷ names) overrides additional s =
    let skipped = overrides_loop names overrides additional s in
    if has name s.used then skipped else elim (lookup name overrides) [
      | none ↦ skipped
      | some o ↦ merge_additional name o additional s >>= λ s'.
          overrides_loop names overrides additional (add_out (assign o) s')
    ]

-- The loop over `additionalArgs`: `entry` is a new assignment without the prefix of the name.
unfoldable pub additional_loop : List Str → List (Str × ℕ) → Merging → Result MergeError Merging
additional_loop [] additional s = ok s
additional_loop (name ∷ names) additional s =
    let skipped = additional_loop names additional s in
    if has name s.used then skipped else elim (lookup name additional) [
      | none ↦ skipped
      | some add ↦ elim (get_elem? s.assigns add) [
        | none ↦ panic
        | some a ↦
            let entry = record a { lhs = ident (drop 11 name) } in
            additional_loop names additional
              (add_out (assign (length s.assigns)) (record s { assigns = s.assigns ++ entry ∷ [] }))
      ]
    ]

abbrev pub append_comments : Comments → Comments → Comments
append_comments a b = record {
  before = a.before ++ b.before;
  suffix = a.suffix ++ b.suffix;
  after = a.after ++ b.after;
}

module _ (map_order : List Str → List Str) where
  unfoldable pub merge_args : List Assign → Exprs → Exprs → Result MergeError Merging
  unfolding classify args_loop overrides_loop additional_loop
  merge_args assigns args1 args2 =
      let (overrides, additional) = classify assigns args2 [] [] in
      args_loop args1 overrides additional (record { used = []; assigns = assigns; out = [] })
      >>= λ s. overrides_loop (map_order (domain overrides)) overrides additional s >>= λ s'.
          additional_loop (map_order (domain additional)) additional s'

  -- `mergeCallExpr` on the statements, both of which are calls: the call, and the store.
  unfoldable pub merge_call_expr :
      Expr → Expr → List Assign → Result MergeError (Expr × List Assign)
  unfolding merge_args
  merge_call_expr (call x1 args1 c1) (call x2 args2 c2) assigns =
      merge_args assigns args1 args2 >>= λ s.
      ok (call x1 (exprs_of s.out) (append_comments c1 c2), s.assigns)
  merge_call_expr _ _ assigns = panic

-- Whether two lists of strings hold the same values; other expressions are never the same.
abbrev pub same_strings : Exprs → Exprs → Bool
same_strings nil nil = true
same_strings (cons (string_lit a) l) (cons (string_lit b) m) = str_eq a b && same_strings l m
same_strings _ _ = false

abbrev pub same_tokens : List Str → List Str → Bool
same_tokens [] [] = true
same_tokens (a ∷ l) (b ∷ m) = str_eq a b && same_tokens l m
same_tokens _ _ = false

abbrev pub same_licenses : Exprs → Exprs → Bool
same_licenses (cons (list l) nil) (cons (list m) nil) = same_strings l m
same_licenses _ _ = false

-- `mergeLicenses` of two calls; none is nil.
unfoldable pub merge_licenses : Expr → Expr → Option Expr
merge_licenses (call x1 args1 c1) (call x2 args2 c2) =
    if same_tokens c1.suffix c2.suffix && same_licenses args1 args2
    then some (call x1 args1 c1)
    else none
merge_licenses _ _ = none
