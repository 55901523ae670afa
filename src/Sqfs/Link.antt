-- ===== src/Sqfs/Link.antt =====
-- `linkOutputTree` of go/src/dropbox/build_tools/build-sqfs/main.go: the work items, the bucket of a
-- link, and the test for duplicate outputs.
use dbx_build_tools.Base.{
  ℕ, zero, suc, ◌+◌, ◌*◌, ◌/◌, ◌%◌, ◌<◌, ◌≤◌, ◌-◌, ltb, not, ◌≡◌, refl, ap, sym, ◌∙◌, Option, none,
  some, List, [], ◌∷◌, ◌++◌, Str, codes, str_eq, lookup, insert, length, if◌then◌else◌, arith,
  Bool-cases, append-nil, inl, inr,
}
use dbx_build_tools.Base.Result.{Result, ok, err}
use dbx_build_tools.Sqfs.Manifest.{ManifestEntry}

pub record WorkItem : Type 0 where
  pub start_index : ℕ
  pub end_index : ℕ

-- `for i := 0; i < length; i += step`; `none` means that the fuel ran out.
unfoldable pub work_loop : ℕ → ℕ → ℕ → ℕ → Option (List WorkItem)
work_loop zero n step i = none
work_loop (suc fuel) n step i =
    let rest = work_loop fuel n step (i + step) in
    let end = if ltb n (i + step) then n else i + step in
    if not (ltb i n) then some [] else elim rest [
      | none ↦ none
      | some items ↦ some (record { start_index = i; end_index = end } ∷ items)
    ]

unfoldable pub work_items : ℕ → ℕ → Option (List WorkItem)
unfolding work_loop
work_items fuel n = let step = n / 10000 in work_loop fuel n (if ltb step 1 then 1 else step) 0

-- The loop that validates the input, on the contents that the entries map to; a source without
-- contents has the empty string.
abbrev pub content_of : List (Str × Str) → Str → Str
content_of content_map src = elim (lookup src content_map) [ none ↦ [] | some path ↦ path ]

pub data DuplicateOutput : Type 0 where
  duplicate_output : Str → Str → Str → DuplicateOutput

unfoldable pub validate_loop :
    List (Str × Str)
    → List ManifestEntry
    → List (Str × Str)
    → Result DuplicateOutput (List (Str × Str))
validate_loop content_map [] dest_map = ok dest_map
validate_loop content_map (entry ∷ entries) dest_map =
    let hash = content_of content_map entry.src in
    let rest = validate_loop content_map entries (insert entry.short_dest hash dest_map) in
    elim (lookup entry.short_dest dest_map) [
      | none ↦ rest
      | some prev ↦
          if not (str_eq prev hash) then err (duplicate_output entry.short_dest prev hash) else rest
    ]

-- The path that a link is made to, with the hash of the destination that `fnv.New32a` gives: a file
-- with copies has `bucketCounts` of them.
unfoldable pub link_source : (ℕ → Str) → (Str → ℕ) → List (Str × ℕ) → Str → Str → Str
link_source print_int hash_32 bucket_counts hash_path dest = elim (lookup hash_path bucket_counts) [
  | none ↦ hash_path
  | some num_files ↦ hash_path ++ (codes "-" ++ print_int (hash_32 dest % num_files))
]

-- `numFiles`, for files that have more links than `maxHardLinks`.
unfoldable pub num_files : ℕ → Option ℕ
num_files num_links = if ltb 30000 num_links then some ((num_links + 29999) / 30000) else none

-- The indices from `i` on.
abbrev pub count_up : ℕ → ℕ → List ℕ
count_up zero i = []
count_up (suc k) i = i ∷ count_up k (suc i)

-- The entries that the workers handle, item by item: `for i := startIndex; i < endIndex; i++`.
abbrev pub handled : List WorkItem → List ℕ
handled [] = []
handled (w ∷ ws) = count_up (w.end_index - w.start_index) w.start_index ++ handled ws

count_up-add : (a b i : ℕ) → count_up (a + b) i ≡ count_up a i ++ count_up b (i + a)
count_up-add zero b i =
    let same : 0 + b ≡ b = omega arith in let next : i + 0 ≡ i = omega arith in rw (same, next) refl
count_up-add (suc a) b i =
    let same : suc a + b ≡ suc (a + b) = omega arith in
    let next : i + suc a ≡ suc i + a = omega arith in
    rw (same, next) (ap (λ l. i ∷ l) (count_up-add a b (suc i)))

few_items : (k r step : ℕ) → r ≡ 0 → k * step < r + step → k ≡ 0
few_items zero r step e h = refl
few_items (suc k) r step e h = absurd (omega (arith, e, h))

-- What the loop over the entries gives from `i` on.
abbrev Covers : ℕ → ℕ → ℕ → List WorkItem → Type 0
Covers n step i items =
    (handled items ≡ count_up (n - i) i) × (length items * step < (n - i) + step)

-- The item that goes to the end.
last-Covers :
    (n step i : ℕ) (items : List WorkItem)
    → 0 < step
    → i < n
    → n < i + step
    → Covers n step (i + step) items
    → Covers n step i (record { start_index = i; end_index = n } ∷ items)
last-Covers n step i items pos below over (all, few) =
    let rest : n - (i + step) ≡ 0 = omega (arith, over) in
    let none_left = few_items (length items) (n - (i + step)) step rest few in
    (rw (all, rest) (append-nil (count_up (n - i) i)), rw none_left (omega (arith, below, pos)))

-- An item before it.
next-Covers :
    (n step i : ℕ) (items : List WorkItem)
    → i + step ≤ n
    → Covers n step (i + step) items
    → Covers n step i (record { start_index = i; end_index = i + step } ∷ items)
next-Covers n step i items more (all, few) =
    let size : (i + step) - i ≡ step = omega arith in
    let sum : n - i ≡ step + (n - (i + step)) = omega (arith, more) in
    (rw (all, size, sum) (sym (count_up-add step (n - (i + step)) i)), omega (arith, few, more))

work_loop-Covers :
    (fuel n step i : ℕ)
    → 0 < step
    → n - i < fuel
    → (items : List WorkItem) × (work_loop fuel n step i ≡ some items) × Covers n step i items
unfolding work_loop
work_loop-Covers zero n step i pos more = absurd (omega (arith, more))
work_loop-Covers (suc fuel) n step i pos more = elim (Bool-cases (ltb i n)) [
  | inr e ↦
      let over : n - i ≡ 0 = ground (arith, e) in
      ([], ground (arith, e), (rw over refl, omega (arith, pos)))
  | inl e ↦
      let below : i < n = ground (arith, e) in
      let (items, eq, covers) =
        work_loop-Covers fuel n step (i + step) pos (omega (arith, pos, more, below)) in
      elim (Bool-cases (ltb n (i + step))) [
        | inl last ↦ (
          record { start_index = i; end_index = n } ∷ items,
          ground (arith, e, last, eq),
          last-Covers n step i items pos below (ground (arith, last)) covers,
        )
        | inr more_left ↦ (
          record { start_index = i; end_index = i + step } ∷ items,
          ground (arith, e, more_left, eq),
          next-Covers n step i items (ground (arith, more_left)) covers,
        )
      ]
]

times_mono : (k m q : ℕ) → k ≤ m → k * q ≤ m * q
times_mono zero m q h = omega arith
times_mono (suc k) zero q h = absurd (omega (arith, h))
times_mono (suc k) (suc m) q h =
    let rest = times_mono k m q (omega (arith, h)) in omega (arith, rest)

few_steps : (k n q : ℕ) → n < 10000 * q + 10000 → 0 < q → k * q < (n - 0) + q → k < 20000
few_steps k n q size pos h = elim (Bool-cases (ltb k 20000)) [
  | inl e ↦ ground (arith, e)
  | inr e ↦
      let many = times_mono 20000 k q (ground (arith, e)) in
      absurd (omega (arith, many, size, pos, h))
]

-- With more fuel than entries, the work items are found; in order they hand out each entry exactly
-- once, and there are fewer than 20000 of them.
pub work_items_cover :
    (fuel n : ℕ)
    → n < fuel
    → (items : List WorkItem) × (work_items fuel n ≡ some items)
      × (handled items ≡ count_up n 0)
      × (length items < 20000)
unfolding work_items
work_items_cover fuel n more =
    let whole : n - 0 ≡ n = omega arith in
    elim (Bool-cases (ltb (n / 10000) 1)) [
      | inl e ↦
          let (items, eq, covers) =
            work_loop-Covers fuel n 1 0 (omega arith) (omega (arith, more)) in
          let (all, few) = covers in
          let small : n / 10000 < 1 = ground (arith, e) in
          (items, rw e eq, all ∙ ap (λ m. count_up m 0) whole, omega (arith, few, small))
      | inr e ↦
          let pos : 0 < n / 10000 = ground (arith, e) in
          let (items, eq, covers) =
            work_loop-Covers fuel n (n / 10000) 0 pos (omega (arith, more)) in
          let (all, few) = covers in
          (
            items,
            rw e eq,
            all ∙ ap (λ m. count_up m 0) whole,
            few_steps (length items) n (n / 10000) (omega arith) pos few,
          )
    ]
