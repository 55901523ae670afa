-- ===== src/Merge/Expr.antt =====
-- The syntax of BUILD files as go/src/dropbox/build_tools/build-merge/main.go takes it apart, and
-- `maybeMergeExpr`. An argument `name = value` is a pointer to an `Assign` in a store, since the
-- program writes to it.
use dbx_build_tools.Base.{
  sym, subst, ℕ, ◌≡◌, refl, ap, ◌∙◌, inl, inr, Bool, true, not, List, [], ◌∷◌, ◌++◌, append_assoc,
  Str, codes, str_eq, if◌then◌else◌, arith, Bool-cases,
}
use dbx_build_tools.Base.Result.{Result, ok, err, ◌>>=◌, >>=-ok_inv}

-- The tokens of the comments of a node.
pub record Comments : Type 0 where
  pub before : List Str
  pub suffix : List Str
  pub after : List Str

mutual
  pub data Expr : Type 0 where
    ident string_lit : Str → Expr
    list dict : Exprs → Expr
    -- The function, the arguments and the comments.
    call : Expr → Exprs → Comments → Expr
    dot : Expr → Str → Expr
    -- The left side, the operator, whether a line break follows it, and the right side.
    binary : Expr → Str → Bool → Expr → Expr
    assign : ℕ → Expr
    -- The module, and the names `From` and `To`.
    load : Str → List Str → List Str → Expr
    comment_block other : ℕ → Expr

  pub data Exprs : Type 0 where
    nil : Exprs
    cons : Expr → Exprs → Exprs

pub record Assign : Type 0 where
  pub lhs : Expr
  pub rhs : Expr

pub data MergeError : Type 0 where
  cannot_merge : Str → Str → MergeError
  conflicting_licenses : MergeError

abbrev pub no_comments : Comments
no_comments = record { before = []; suffix = []; after = [] }

-- `l, ok := rhs.(*build.ListExpr)`, and the sum that follows.
abbrev pub plus_list : Expr → Expr → MergeError → Result MergeError Expr
plus_list t (list l) e = ok (binary t (codes "+") true (list l))
plus_list t _ e = err e

abbrev pub update_dict : Expr → Expr → MergeError → Result MergeError Expr
update_dict t (dict d) e = ok (call (dot t (codes "update")) (cons (dict d) nil) no_comments)
update_dict t _ e = err e

abbrev pub plus_glob : Expr → Expr → Expr → MergeError → Result MergeError Expr
plus_glob (ident name) t rhs e =
    if not (str_eq name (codes "glob")) then err e else plus_list t rhs e
plus_glob _ t rhs e = err e

unfoldable pub maybe_merge_expr : Expr → Expr → Str → Str → Result MergeError Expr
maybe_merge_expr (list l) rhs lhs_name rhs_name =
    plus_list (list l) rhs (cannot_merge lhs_name rhs_name)
maybe_merge_expr (dict d) rhs lhs_name rhs_name =
    update_dict (dict d) rhs (cannot_merge lhs_name rhs_name)
maybe_merge_expr (call x args c) rhs lhs_name rhs_name =
    plus_glob x (call x args c) rhs (cannot_merge lhs_name rhs_name)
maybe_merge_expr (binary x op line_break y) rhs lhs_name rhs_name =
    let rest = maybe_merge_expr y rhs lhs_name rhs_name in
    if not (str_eq op (codes "+"))
    then err (cannot_merge lhs_name rhs_name)
    else rest >>= λ z. ok (binary x (codes "+") line_break z)
maybe_merge_expr _ rhs lhs_name rhs_name = err (cannot_merge lhs_name rhs_name)

-- The summands of an expression: itself, if it is not a sum.
abbrev pub summands : Expr → List Expr
summands (binary x op line_break y) =
    let left = summands x in
    let right = summands y in
    if str_eq op (codes "+") then left ++ right else binary x op line_break y ∷ []
summands (ident s) = ident s ∷ []
summands (string_lit s) = string_lit s ∷ []
summands (list l) = list l ∷ []
summands (dict d) = dict d ∷ []
summands (call x args c) = call x args c ∷ []
summands (dot x s) = dot x s ∷ []
summands (assign r) = assign r ∷ []
summands (load m f t) = load m f t ∷ []
summands (comment_block n) = comment_block n ∷ []
summands (other n) = other n ∷ []

plus_glob-ok :
    (x t : Expr) (l : Exprs) (e : MergeError) (r : Expr)
    → plus_glob x t (list l) e ≡ ok r
    → binary t (codes "+") true (list l) ≡ r
unfolding str_eq
plus_glob-ok (ident name) t l e r h = elim (Bool-cases (str_eq name (codes "glob"))) [
  | inl g ↦ cc (rw g at h)
  | inr g ↦ absurd (ground (arith, h, g))
]
plus_glob-ok (string_lit s) t l e r h = absurd (cc)
plus_glob-ok (list m) t l e r h = absurd (cc)
plus_glob-ok (dict d) t l e r h = absurd (cc)
plus_glob-ok (call y a c) t l e r h = absurd (cc)
plus_glob-ok (dot y s) t l e r h = absurd (cc)
plus_glob-ok (binary y o b z) t l e r h = absurd (cc)
plus_glob-ok (assign n) t l e r h = absurd (cc)
plus_glob-ok (load m f g) t l e r h = absurd (cc)
plus_glob-ok (comment_block n) t l e r h = absurd (cc)
plus_glob-ok (other n) t l e r h = absurd (cc)

-- When a list is merged into an expression, the result is the sum of what the expression was the
-- sum of, and of the list; in particular nothing of the expression is lost.
pub maybe_merge_expr_sum :
    (lhs : Expr) (l : Exprs) (lhs_name rhs_name : Str) (r : Expr)
    → maybe_merge_expr lhs (list l) lhs_name rhs_name ≡ ok r
    → summands r ≡ summands lhs ++ list l ∷ []
unfolding maybe_merge_expr str_eq
maybe_merge_expr_sum (list m) l a b r h =
    let same : binary (list m) (codes "+") true (list l) ≡ r = cc (h) in
    subst (λ z. summands z ≡ list m ∷ list l ∷ []) same refl
maybe_merge_expr_sum (call x args c) l a b r h =
    subst (λ z. summands z ≡ call x args c ∷ list l ∷ []) (plus_glob-ok x (call x args c) l _ r h)
      refl
maybe_merge_expr_sum (binary x op line_break y) l a b r h =
    elim (Bool-cases (str_eq op (codes "+"))) [
      | inr e ↦ absurd (ground (arith, h, e))
      | inl e ↦
          let (z, m, f) =
            >>=-ok_inv (maybe_merge_expr y (list l) a b)
              (λ z. ok (binary x (codes "+") line_break z)) (rw e at h) in
          let same : binary x (codes "+") line_break z ≡ r = cc (f) in
          rw e (
            subst (λ w. summands w ≡ (summands x ++ summands y) ++ list l ∷ []) same
              (ap (λ (s : List Expr). summands x ++ s) (maybe_merge_expr_sum y l a b z m)
                ∙ sym (append_assoc (summands x) (summands y) (list l ∷ []))))
    ]
maybe_merge_expr_sum (dict d) l a b r h = absurd (cc)
maybe_merge_expr_sum (ident s) l a b r h = absurd (cc)
maybe_merge_expr_sum (string_lit s) l a b r h = absurd (cc)
maybe_merge_expr_sum (dot x s) l a b r h = absurd (cc)
maybe_merge_expr_sum (assign n) l a b r h = absurd (cc)
maybe_merge_expr_sum (load m f t) l a b r h = absurd (cc)
maybe_merge_expr_sum (comment_block n) l a b r h = absurd (cc)
maybe_merge_expr_sum (other n) l a b r h = absurd (cc)
