-- ===== src/Merge/Parse.antt =====
-- `parse` of go/src/dropbox/build_tools/build-merge/main.go, on the statements that the parser of
-- BUILD files gives. A `*mergeable` is its address in a store that both inputs share.
use dbx_build_tools.Base.{
  ℕ, Bool, false, not, Option, none, some, List, [], ◌∷◌, ◌++◌, Str, codes, str_eq, length,
  get_elem?, lookup, insert, if◌then◌else◌,
}
use dbx_build_tools.Merge.Expr.{
  Comments, Expr, Exprs, nil, cons, ident, string_lit, call, assign, load, Assign,
}

pub record Mergeable : Type 0 where
  pub stmt : Expr
  pub merged : Bool
  -- The empty string for a statement that is no target.
  pub target_name : Str

pub record Parsed : Type 0 where
  pub comments : Comments
  pub stmts : List ℕ
  pub pkg : Option ℕ
  pub loads : List (Str × List ℕ)
  pub licenses : Option ℕ
  pub calls : List (Str × ℕ)

pub record Store : Type 0 where
  pub assigns : List Assign
  pub mergeables : List Mergeable

-- The right side of an argument `name = "..."`.
abbrev pub name_value : List Assign → Expr → Option Str
name_value assigns (assign r) = elim (get_elem? assigns r) [
  | none ↦ none
  | some a ↦ elim a.lhs [
    | ident name ↦
        if not (str_eq name (codes "name"))
        then none
        else elim a.rhs [ string_lit s ↦ some s | _ ↦ none ]
    | _ ↦ none
  ]
]
name_value assigns _ = none

-- The loop over the arguments of a call, which stops at the first name.
unfoldable pub target_of : List Assign → Exprs → Option Str
target_of assigns nil = none
target_of assigns (cons arg args) = elim (name_value assigns arg) [
  | some s ↦ some s
  | none ↦ target_of assigns args
]

abbrev pub entries_at : Str → List (Str × List ℕ) → List ℕ
entries_at file loads = elim (lookup file loads) [ none ↦ [] | some entries ↦ entries ]

-- What the statement at an address adds to the tables of a file, and its target's name.
unfoldable pub register_stmt : List Assign → ℕ → Expr → Parsed → Parsed × Str
unfolding target_of
register_stmt assigns m (call (ident name) args c) p =
    if str_eq name (codes "package")
    then (record p { pkg = some m }, [])
    else if str_eq name (codes "licenses")
    then (record p { licenses = some m }, [])
    else elim (target_of assigns args) [
      | none ↦ (p, [])
      | some target ↦ (record p { calls = insert target m p.calls }, target)
    ]
register_stmt assigns m (load file from to) p =
    (record p { loads = insert file (entries_at file p.loads ++ m ∷ []) p.loads }, [])
register_stmt assigns m _ p = (p, [])

-- The loop over `file.Stmt`.
unfoldable pub parse_stmts : List Expr → Parsed → Store → Parsed × Store
unfolding register_stmt
parse_stmts [] p s = (p, s)
parse_stmts (stmt ∷ stmts) p s =
    let m = length s.mergeables in
    let (p', target) = register_stmt s.assigns m stmt p in
    parse_stmts stmts (record p' { stmts = p'.stmts ++ m ∷ [] })
      (record s {
        mergeables =
            s.mergeables ++ record { stmt = stmt; merged = false; target_name = target } ∷ [];
      })

unfoldable pub parse : Comments → List Expr → Store → Parsed × Store
unfolding parse_stmts
parse comments stmts s =
    parse_stmts stmts
      (record {
        comments = comments;
        stmts = [];
        pkg = none;
        loads = [];
        licenses = none;
        calls = [];
      })
      s
