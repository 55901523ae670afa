-- ===== src/Merge/File.antt =====
-- `merge` of go/src/dropbox/build_tools/build-merge/main.go, on two parsed files.
use dbx_build_tools.Base.{
  ℕ, Bool, true, false, not, Option, none, some, List, [], ◌∷◌, ◌++◌, map, Str, str_eq, has, set,
  get_elem?, lookup, insert, domain, sort_strings, if◌then◌else◌,
}
use dbx_build_tools.Base.Result.{Result, ok, err, panic, ◌>>=◌}
use dbx_build_tools.Merge.Expr.{
  Comments, Expr, assign, load, comment_block, MergeError, conflicting_licenses,
}
use dbx_build_tools.Merge.Call.{append_comments, merge_call_expr, merge_licenses}
use dbx_build_tools.Merge.Parse.{Mergeable, Parsed, Store, entries_at}

-- `m.merged = true`
abbrev pub mark : ℕ → List Mergeable → List Mergeable
mark m ms = elim (get_elem? ms m) [ none ↦ ms | some x ↦ set ms m (record x { merged = true }) ]

abbrev pub is_comment_block : Expr → Bool
is_comment_block (comment_block n) = true
is_comment_block _ = false

abbrev pub is_assign : Expr → Bool
is_assign (assign r) = true
is_assign _ = false

-- The loop over the leading comment blocks.
unfoldable pub leading_comments : List ℕ → List Mergeable → List Expr × List Mergeable
leading_comments [] ms = ([], ms)
leading_comments (m ∷ l) ms = elim (get_elem? ms m) [
  | none ↦ ([], ms)
  | some x ↦
      let (es, ms') = leading_comments l (mark m ms) in
      if not (is_comment_block x.stmt) then ([], ms) else (x.stmt ∷ es, ms')
]

-- The loop over the assignments of variables.
unfoldable pub assignments : List ℕ → List Mergeable → List Expr × List Mergeable
assignments [] ms = ([], ms)
assignments (m ∷ l) ms = elim (get_elem? ms m) [
  | none ↦ assignments l ms
  | some x ↦
      let skipped = assignments l ms in
      let (es, ms') = assignments l (mark m ms) in
      if not (is_assign x.stmt) then skipped else (x.stmt ∷ es, ms')
]

-- `input1.loads[file] = append(input1.loads[file], entries...)` for each file of the second input.
unfoldable pub join_loads : List (Str × List ℕ) → List (Str × List ℕ) → List (Str × List ℕ)
join_loads [] loads = loads
join_loads ((file, entries) ∷ more) loads =
    join_loads more (insert file (entries_at file loads ++ entries) loads)

-- The loop over the names of one load: `fromTo`, and `sortedImports` before it is sorted. A missing
-- `To` is an index out of range.
unfoldable pub import_names :
    List Str
    → List Str
    → List (Str × Str)
    → List Str
    → Result MergeError (List (Str × Str) × List Str)
import_names [] to from_to imports = ok (from_to, imports)
import_names (f ∷ from) [] from_to imports =
    if has f (domain from_to) then import_names from [] from_to imports else panic
import_names (f ∷ from) (t ∷ to) from_to imports =
    let skipped = import_names from to from_to imports in
    let taken = import_names from to (insert f t from_to) (imports ++ f ∷ []) in
    if has f (domain from_to) then skipped else taken

unfoldable pub load_entries :
    List ℕ
    → List Mergeable
    → List (Str × Str)
    → List Str
    → Result MergeError (List (Str × Str) × List Str × List Mergeable)
unfolding import_names
load_entries [] ms from_to imports = ok (from_to, imports, ms)
load_entries (m ∷ entries) ms from_to imports = elim (get_elem? ms m) [
  | none ↦ panic
  | some x ↦ elim x.stmt [
    | load file from to ↦ import_names from to from_to imports >>= λ (from_to', imports').
        load_entries entries (mark m ms) from_to' imports'
    | _ ↦ panic
  ]
]

abbrev pub to_of : List (Str × Str) → Str → Str
to_of from_to f = elim (lookup f from_to) [ none ↦ [] | some t ↦ t ]

-- The loop over `sortedLoads`: one load for each file, its names sorted.
unfoldable pub loads_loop :
    List Str → List (Str × List ℕ) → List Mergeable → Result MergeError (List Expr × List Mergeable)
unfolding load_entries
loads_loop [] loads ms = ok ([], ms)
loads_loop (file ∷ files) loads ms =
    load_entries (entries_at file loads) ms [] [] >>= λ (from_to, imports, ms').
    let sorted = sort_strings imports in
    loads_loop files loads ms' >>= λ (es, ms'').
    ok (load file sorted (map (to_of from_to) sorted) ∷ es, ms'')

abbrev pub stmt_at : List Mergeable → ℕ → Option Expr
stmt_at ms m = elim (get_elem? ms m) [ none ↦ none | some x ↦ some x.stmt ]

-- What `merge` changes.
pub record Output : Type 0 where
  pub stmts : List Expr
  pub store : Store

abbrev pub add_stmts : List Expr → List Mergeable → Output → Output
add_stmts es ms o = record { stmts = o.stmts ++ es; store = record o.store { mergeables = ms } }

-- One statement of an input is written and marked.
abbrev pub take_stmt : ℕ → Output → Result MergeError Output
take_stmt m o = elim (stmt_at o.store.mergeables m) [
  | none ↦ panic
  | some e ↦ ok (add_stmts (e ∷ []) (mark m o.store.mergeables) o)
]

-- The assignments of variables of both inputs.
unfoldable pub merge_assignments : Parsed → Parsed → Output → Output
unfolding assignments
merge_assignments input1 input2 o =
    let (assigns1, ms1) = assignments input1.stmts o.store.mergeables in
    let (assigns2, ms2) = assignments input2.stmts ms1 in add_stmts (assigns1 ++ assigns2) ms2 o

module _ (map_order : List Str → List Str) where
  -- `mergeCallExpr(m1, m2)`, with both statements marked.
  unfoldable pub merge_stmts : ℕ → ℕ → Output → Result MergeError Output
  unfolding merge_call_expr
  merge_stmts m1 m2 o = elim (stmt_at o.store.mergeables m1) [
    | none ↦ panic
    | some e1 ↦ elim (stmt_at o.store.mergeables m2) [
      | none ↦ panic
      | some e2 ↦ do
        (e, assigns) ← merge_call_expr map_order e1 e2 o.store.assigns
        ok (record {
          stmts = o.stmts ++ e ∷ [];
          store = record { assigns = assigns; mergeables = mark m2 (mark m1 o.store.mergeables) };
        })
    ]
  ]

  unfoldable pub merge_pkg : Option ℕ → Option ℕ → Output → Result MergeError Output
  unfolding merge_stmts
  merge_pkg (some m1) (some m2) o = merge_stmts m1 m2 o
  merge_pkg (some m1) none o = take_stmt m1 o
  merge_pkg none (some m2) o = take_stmt m2 o
  merge_pkg none none o = ok o

  unfoldable pub merge_both_licenses : Option ℕ → Option ℕ → Output → Result MergeError Output
  merge_both_licenses (some m1) (some m2) o = elim (stmt_at o.store.mergeables m1) [
    | none ↦ panic
    | some e1 ↦ elim (stmt_at o.store.mergeables m2) [
      | none ↦ panic
      | some e2 ↦ elim (merge_licenses e1 e2) [
        | none ↦ err conflicting_licenses
        | some e ↦ ok (add_stmts (e ∷ []) (mark m2 (mark m1 o.store.mergeables)) o)
      ]
    ]
  ]
  merge_both_licenses (some m1) none o = take_stmt m1 o
  merge_both_licenses none (some m2) o = take_stmt m2 o
  merge_both_licenses none none o = ok o

  -- The loop over the rules of the first input, with the calls of the second.
  unfoldable pub rules_loop : List ℕ → List (Str × ℕ) → Output → Result MergeError Output
  unfolding merge_stmts
  rules_loop [] calls o = ok o
  rules_loop (m ∷ l) calls o = elim (get_elem? o.store.mergeables m) [
    | none ↦ panic
    | some x ↦
        let skipped = rules_loop l calls o in
        let other = if str_eq x.target_name [] then none else lookup x.target_name calls in
        if x.merged then skipped else elim other [
          | some m2 ↦ merge_stmts m m2 o >>= rules_loop l calls
          | none ↦ take_stmt m o >>= rules_loop l calls
        ]
  ]

  -- The loop over the rules of the second input.
  unfoldable pub other_rules_loop : List ℕ → Output → Result MergeError Output
  other_rules_loop [] o = ok o
  other_rules_loop (m ∷ l) o = elim (get_elem? o.store.mergeables m) [
    | none ↦ panic
    | some x ↦
        let skipped = other_rules_loop l o in
        if x.merged then skipped else take_stmt m o >>= other_rules_loop l
  ]

  -- `merge` up to the licenses.
  unfoldable pub merge_head : Parsed → Parsed → Store → Result MergeError Output
  unfolding leading_comments merge_pkg join_loads loads_loop merge_both_licenses
  merge_head input1 input2 s0 = do
    let (comments1, ms1) = leading_comments input1.stmts s0.mergeables
    let (comments2, ms2) = leading_comments input2.stmts ms1
    let o1 : Output = record {
      stmts = comments1 ++ comments2;
      store = record s0 { mergeables = ms2 };
    }
    o2 ← merge_pkg input1.pkg input2.pkg o1
    let loads = join_loads input2.loads input1.loads
    (es, ms3) ← loads_loop (sort_strings (domain loads)) loads o2.store.mergeables
    merge_both_licenses input1.licenses input2.licenses (add_stmts es ms3 o2)

  -- `merge`: the comments and the statements of the output, and the store.
  unfoldable pub merge : Parsed → Parsed → Store → Result MergeError (Comments × Output)
  unfolding merge_head merge_assignments rules_loop other_rules_loop
  merge input1 input2 s0 = merge_head input1 input2 s0 >>= λ o3.
      rules_loop input1.stmts input2.calls (merge_assignments input1 input2 o3) >>= λ o4.
      other_rules_loop input2.stmts o4 >>= λ o5.
      ok (append_comments input1.comments input2.comments, o5)
