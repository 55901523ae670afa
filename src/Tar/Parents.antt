-- ===== src/Tar/Parents.antt =====
-- The directories of an archive of go/src/dropbox/build_tools/build-tar/main.go.

use dbx_build_tools.Base.{
  ℕ, zero, suc, ◌+◌, ◌<◌, ◌≤◌, ◌≡◌, refl, sym, ap, ◌∙◌, subst, inl, inr, Bool, true, false, ◌||◌,
  some, List, [], ◌∷◌, ◌++◌, map, append-nil, append_assoc, Str, str_eq, str_eq_iff, str_eq_refl,
  has, has-append, is_nil, arith, Bool-cases, All,
}
use dbx_build_tools.Base.Result.{Result, ok, panic, ◌>>=◌, >>=-ok_inv}
use dbx_build_tools.Tar.{
  ManifestEntry, TarEntry, directory, empty_file, file, dot, dirs_loop, maybe_create_directories,
  tar_loop,
}

-- `filepath.Dir` shortens every path that it changes: it leaves "." and "/" as they are.
pub record IsDir (dir : Str → Str) (depth : Str → ℕ) : Type 0 where
  pub shorter : (path : Str) → str_eq (dir path) path ≡ false → depth (dir path) < depth path

module _ (dir : Str → Str) (depth : Str → ℕ) (is_dir : IsDir dir depth) where
  abbrev pub IsKnown : List Str → Str → Type 0
  IsKnown created d = (str_eq d dot || has d created) ≡ true

  -- The parent of a directory is known, or the directory is the root, its own parent.
  abbrev pub IsPlaced : List Str → Str → Type 0
  IsPlaced created d = (str_eq (dir d) d || (str_eq (dir d) dot || has (dir d) created)) ≡ true

  -- With some directories created before: every directory is written once, after its parent, and every
  -- file that has contents after its directory.
  abbrev pub AreParents : List Str → List TarEntry → Type 0
  AreParents created [] = Unit
  AreParents created (directory d ∷ out) =
      IsPlaced created d × (has d created ≡ false) × AreParents (d ∷ created) out
  AreParents created (empty_file f ∷ out) = AreParents created out
  AreParents created (file f src ∷ out) = IsKnown created (dir f) × AreParents created out

  -- Only the set of the directories matters.
  AreParents-same :
      (c c' : List Str)
      → ((k : Str) → has k c ≡ has k c')
      → (out : List TarEntry) → AreParents c out
      → AreParents c' out
  unfolding has
  AreParents-same c c' same [] h = tt
  AreParents-same c c' same (directory d ∷ out) (known, new, rest) = (
    ground (arith, known, same (dir d)),
    ground (arith, new, same d),
    AreParents-same (d ∷ c) (d ∷ c') (λ k. ground (arith, same k)) out rest,
  )
  AreParents-same c c' same (empty_file f ∷ out) rest = AreParents-same c c' same out rest
  AreParents-same c c' same (file f src ∷ out) (known, rest) =
      (ground (arith, known, same (dir f)), AreParents-same c c' same out rest)

  -- Directories that are written one after the other.
  AreParents-append :
      (c dirs : List Str) (out : List TarEntry)
      → AreParents c (map directory dirs)
      → AreParents (dirs ++ c) out
      → AreParents c (map directory dirs ++ out)
  unfolding has
  AreParents-append c [] out first rest = rest
  AreParents-append c (d ∷ dirs) out (known, new, first) rest = (
    known,
    new,
    AreParents-append (d ∷ c) dirs out first (
        AreParents-same (d ∷ dirs ++ c) (dirs ++ d ∷ c)
          (λ k. ground (arith, has-append k dirs c, has-append k dirs (d ∷ c))) out rest),
  )

  map_snoc :
      (dirs : List Str) (d : Str)
      → map directory (dirs ++ d ∷ []) ≡ map directory dirs ++ directory d ∷ []
  map_snoc [] d = refl
  map_snoc (x ∷ dirs) d = ap (λ (l : List TarEntry). directory x ∷ l) (map_snoc dirs d)

  AreParents-snoc :
      (c dirs : List Str) (d : Str)
      → AreParents c (map directory dirs)
      → IsPlaced (dirs ++ c) d
      → has d (dirs ++ c) ≡ false
      → AreParents c (map directory (dirs ++ d ∷ []))
  AreParents-snoc c dirs d first known new =
      subst (AreParents c) (sym (map_snoc dirs d))
        (AreParents-append c dirs (directory d ∷ []) first (known, new, tt))

  -- The fuel is more than the depth of every file's directory, and one more.
  abbrev pub AreShallow : ℕ → (Str → Str) → List ManifestEntry → Type 0
  AreShallow fuel destination = All (λ m. depth (dir (destination m.short_dest)) + 1 < fuel)

  -- What the loop over the parents of a path finds: the directories `found` before those it had.
  record IsFound (c new : List Str) (d : Str) (created' new' : List Str) : Type 0 where
    found : List Str
    splits : new' ≡ found ++ new
    created : (k : Str) → has k created' ≡ (has k found || (has k new || has k c))
    parents : AreParents c (map directory found)
    known : IsKnown (found ++ c) d
    low : (k : Str) → has k found ≡ true → depth k ≤ depth d

  dirs_loop-known :
      (fuel : ℕ) (d : Str) (created new : List Str)
      → 0 < fuel
      → IsKnown created d
      → dirs_loop dir fuel d created new ≡ some (created, new)
  unfolding dirs_loop
  dirs_loop-known zero d created new enough known = absurd (omega (arith, enough))
  dirs_loop-known (suc fuel) d created new enough known = rw known refl

  -- The root, which is its own parent.
  dirs_loop-root :
      (fuel : ℕ) (d : Str) (c created new : List Str)
      → 0 < fuel
      → (str_eq d dot || has d created) ≡ false
      → dir d ≡ d
      → ((k : Str) → has k created ≡ (has k new || has k c))
      → (created' : List Str) × (new' : List Str) × (dirs_loop dir (suc fuel) d created new
          ≡ some (created', new'))
        × IsFound c new d created' new'
  unfolding dirs_loop has
  dirs_loop-root fuel d c created new enough e root same = (
    d ∷ created,
    d ∷ new,
    rw (e, root)
        (dirs_loop-known fuel d (d ∷ created) (d ∷ new) enough (ground (arith, str_eq_refl d))),
    record {
      found = d ∷ [];
      splits = refl;
      created = λ k. ground (arith, same k);
      parents = (ground (arith, (str_eq_iff (dir d) d).1 root), ground (arith, e, same d), tt);
      known = ground (arith, str_eq_refl d);
      low = λ k h.
          let last : str_eq k d ≡ true = ground (arith, h) in
          omega (arith, ap depth ((str_eq_iff k d).0 last));
    },
  )

  dirs_loop-IsFound :
      (fuel : ℕ) (d : Str) (c created new : List Str)
      → depth d + 1 < fuel
      → ((k : Str) → has k created ≡ (has k new || has k c))
      → ((k : Str) → has k new ≡ true → depth d < depth k)
      → (created' : List Str) × (new' : List Str) × (dirs_loop dir fuel d created new
          ≡ some (created', new'))
        × IsFound c new d created' new'
  unfolding dirs_loop has
  dirs_loop-IsFound zero d c created new enough same high = absurd (omega (arith, enough))
  dirs_loop-IsFound (suc fuel) d c created new enough same high =
      elim (Bool-cases (str_eq d dot || has d created)) [
        | inl e ↦ (
          created,
          new,
          rw (e) refl,
          record {
            found = [];
            splits = refl;
            created = λ k. ground (arith, same k);
            parents = tt;
            known = elim (Bool-cases (has d new)) [
              | inl n ↦ absurd (omega (arith, high d n))
              | inr n ↦ ground (arith, e, same d, n)
            ];
            low = λ k h. absurd (cc (h));
          },
        )
        | inr e ↦ elim (Bool-cases (str_eq (dir d) d)) [
          | inl root ↦
              dirs_loop-root fuel d c created new (omega (arith, enough)) e
                ((str_eq_iff (dir d) d).0 root) same
          | inr higher ↦
              let falls = is_dir.shorter d higher in
              let (created', new', run, f) =
                dirs_loop-IsFound fuel (dir d) c (d ∷ created) (d ∷ new)
                  (omega (arith, enough, falls)) (λ k. ground (arith, same k))
                  (λ k h. elim (Bool-cases (str_eq k d)) [
                    | inl q ↦ omega (arith, falls, ap depth ((str_eq_iff k d).0 q))
                    | inr q ↦ omega (arith, falls, high k (ground (arith, h, q)))
                  ]) in
              let fresh : has d (f.found ++ c) ≡ false = elim (Bool-cases (has d f.found)) [
                | inl q ↦ absurd (omega (arith, falls, f.low d q))
                | inr q ↦ ground (arith, has-append d f.found c, q, e, same d)
              ] in
              (
                created',
                new',
                rw (e) run,
                record {
                  found = f.found ++ d ∷ [];
                  splits = f.splits ∙ sym (append_assoc f.found (d ∷ []) new);
                  created = λ k. ground (arith, f.created k, has-append k f.found (d ∷ []));
                  parents = AreParents-snoc c f.found d f.parents (ground (arith, f.known)) fresh;
                  known = ground (
                    arith,
                    has-append d (f.found ++ d ∷ []) c,
                    has-append d f.found (d ∷ []),
                    str_eq_refl d,
                  );
                  low = λ k h. elim (Bool-cases (has k f.found)) [
                    | inl q ↦ omega (arith, falls, f.low k q)
                    | inr q ↦
                        let last : str_eq k d ≡ true =
                          ground (arith, h, q, has-append k f.found (d ∷ [])) in
                        omega (arith, ap depth ((str_eq_iff k d).0 last))
                  ];
                },
              )
        ]
      ]

  -- Every file that has contents has a status.
  abbrev pub AreThere : (Str → Bool) → List ManifestEntry → Type 0
  AreThere has_stat = All (λ m. (is_nil m.src || has_stat m.src) ≡ true)

  -- With more fuel than the directories of the files are deep, and one more, the loop over the manifest ends. What it
  -- writes has every directory once, after its parent unless it is the root, and every file that has
  -- contents after its directory, also when some directories were written before; and it writes it, without a panic, when
  -- all files with contents are there.
  pub tar_loop-AreParents :
      (fuel : ℕ) (destination : Str → Str) (has_stat : Str → Bool) (manifest : List ManifestEntry)
      (created : List Str)
      → AreShallow fuel destination manifest
      → (r : Result Str (List TarEntry)) × (tar_loop dir fuel destination has_stat manifest created
          ≡ some r)
        × ((out : List TarEntry) → r ≡ ok out → AreParents created out)
        × (AreThere has_stat manifest → (out : List TarEntry) × (r ≡ ok out))
  unfolding tar_loop maybe_create_directories has
  tar_loop-AreParents fuel destination has_stat [] created all = (
    ok [],
    refl,
    λ out h. let same : [] ≡ out = ground (arith, h) in subst (AreParents created) same tt,
    λ there. ([], refl),
  )
  tar_loop-AreParents fuel destination has_stat (m ∷ manifest) created (shallow, all) =
      let dst : Str = destination m.short_dest in
      elim (Bool-cases (is_nil m.src)) [
        | inl e ↦
            let (r, run, rest, finish) =
              tar_loop-AreParents fuel destination has_stat manifest created all in
            (
              r >>= (λ out. ok (empty_file dst ∷ out)),
              rw (e, run) refl,
              λ out h.
                  let (tail, f, g) = >>=-ok_inv r (λ out. ok (empty_file dst ∷ out)) h in
                  let same : empty_file dst ∷ tail ≡ out = ground (arith, g) in
                  subst (AreParents created) same (rest tail f),
              λ (here, there). let (out, q) = finish there in (empty_file dst ∷ out, rw (q) refl),
            )
        | inr e ↦
            let (created', new, loop, f) =
              dirs_loop-IsFound fuel (dir dst) created created [] shallow (λ k. refl)
                (λ k h. absurd (cc (h))) in
            let found : new ≡ f.found = f.splits ∙ append-nil f.found in
            elim (Bool-cases (has_stat m.src)) [
              | inl s ↦
                  let (r, run, rest, finish) =
                    tar_loop-AreParents fuel destination has_stat manifest created' all in
                  let next : List TarEntry → Result Str (List TarEntry) =
                    λ out. ok (map directory new ++ file dst m.src ∷ out) in
                  (
                    r >>= next,
                    rw (tar_loop, e, loop, s, run) refl,
                    λ out h.
                        let (tail, q, g) = >>=-ok_inv r next h in
                        let after : List TarEntry = file dst m.src ∷ tail in
                        let same : map directory f.found ++ after ≡ out =
                          ap (λ (l : List Str). map directory l ++ after) (sym found)
                          ∙ ground (arith, g) in
                        let later : AreParents (f.found ++ created) tail =
                          AreParents-same created' (f.found ++ created)
                            (λ k. ground (arith, f.created k, has-append k f.found created)) tail
                            (rest tail q) in
                        subst (AreParents created) same
                          (AreParents-append created f.found after f.parents (f.known, later)),
                    λ (here, there).
                        let (out, q) = finish there in
                        (map directory new ++ file dst m.src ∷ out, rw (q) refl),
                  )
              | inr s ↦ (
                panic,
                rw (tar_loop, e, loop, s) refl,
                λ out h. absurd (cc (h)),
                λ (here, there). absurd (ground (arith, here, e, s)),
              )
            ]
      ]
