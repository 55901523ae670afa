-- ===== src/GenBuild/Uniq.antt =====
-- `Uniq` of go/src/dropbox/build_tools/gen-build-go/lib/utils.go on strings.
use dbx_build_tools.Base.{
  ◌≡◌, refl, inl, inr, ◌||◌, List, [], ◌∷◌, ◌++◌, Str, str_eq_iff, has, has-append, has-occ, occ,
  occ-append, Distinct, Bool-cases, if◌then◌else◌, arith,
}

-- The loop over the items, with `keys` and `deduped`.
unfoldable pub uniq_loop : List Str → List Str → List Str → List Str
uniq_loop keys deduped [] = deduped
uniq_loop keys deduped (item ∷ items) =
    let rest = uniq_loop (item ∷ keys) (deduped ++ item ∷ []) items in
    if has item keys then uniq_loop keys deduped items else rest

unfoldable pub uniq : List Str → List Str
unfolding uniq_loop
uniq items = uniq_loop [] [] items

-- `UniqSort`, which hands the result to `sort.Sort`.
unfoldable pub uniq_sort : (List Str → List Str) → List Str → List Str
unfolding uniq_loop
uniq_sort sort items = sort (uniq_loop [] [] items)

uniq_loop_lem :
    (keys deduped items : List Str)
    → ((k : Str) → has k keys ≡ has k deduped)
    → Distinct deduped
    → ((k : Str) → has k (uniq_loop keys deduped items) ≡ (has k deduped || has k items))
      × Distinct (uniq_loop keys deduped items)
unfolding uniq_loop has occ
uniq_loop_lem keys deduped [] same apart = (λ k. ground arith, apart)
uniq_loop_lem keys deduped (item ∷ items) same apart = elim (Bool-cases (has item keys)) [
  | inl e ↦ rw e (
      let (all, once) = uniq_loop_lem keys deduped items same apart in
      (λ k. ground (arith, all k, same k, same item, e, str_eq_iff k item), once))
  | inr e ↦ rw e (
      let (all, once) =
        uniq_loop_lem (item ∷ keys) (deduped ++ item ∷ []) items
          (λ k. ground (arith, same k, has-append k deduped (item ∷ [])))
          (λ k. ground (
            arith,
            occ-append k deduped (item ∷ []),
            apart k,
            has-occ k deduped,
            same k,
            same item,
            e,
            str_eq_iff k item,
          )) in
      (λ k. ground (arith, all k, has-append k deduped (item ∷ [])), once))
]

-- `Uniq` keeps exactly the items that it is given, each of them once.
uniq_correct :
    (items : List Str) → ((k : Str) → has k (uniq items) ≡ has k items) × Distinct (uniq items)
unfolding uniq has occ
uniq_correct items =
    let (all, once) = uniq_loop_lem [] [] items (λ k. refl) (λ k. omega arith) in
    (λ k. ground (arith, all k), once)
