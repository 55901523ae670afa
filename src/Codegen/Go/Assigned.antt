-- ===== src/Codegen/Go/Assigned.antt =====
-- The aliases that `AssignAliases` of go/src/dropbox/build_tools/codegen/go_writer.go gives.
use dbx_build_tools.Base.{◌↔◌}
use dbx_build_tools.Base.{
  ℕ, ◌≡◌, refl, ◌∙◌, inl, inr, Bool, true, false, not, ◌||◌, ◌&&◌, some, List, [], ◌∷◌, Str, str_eq,
  str_eq_iff, str_eq_refl, has, has-occ, lookup, lookup-insert, lookup-domain, domain-insert,
  domain, sort_strings, occ-sort_strings, Bool-cases, Option-cases, if◌then◌else◌, arith,
}
use dbx_build_tools.Codegen.Alias.{IsPrinting, pick_alias_lem}
use dbx_build_tools.Codegen.Go.{
  GoPkg, GoPkgMap, alias_of, set_alias, split_file, assign_loop, assign_aliases,
}

-- The aliases of the packages that `done` names: different ones, none of them reserved.
pub record IsAssigned (reserved : List Str) (done : Str → Bool) (pkgs : List (Str × GoPkg))
    : Type 0 where
  pub free : (p : Str) → done p ≡ true → has (alias_of p pkgs) reserved ≡ false
  pub apart :
      (p q : Str) → done p ≡ true → done q ≡ true → alias_of p pkgs ≡ alias_of q pkgs → p ≡ q

alias_of-set_alias :
    (path alias p : Str) (pkgs : List (Str × GoPkg))
    → has path (domain pkgs) ≡ true
    → alias_of p (set_alias path alias pkgs) ≡ (if str_eq p path then alias else alias_of p pkgs)
alias_of-set_alias path alias p pkgs h = elim (Option-cases (lookup path pkgs)) [
  | inl e ↦ absurd (ground (arith, h, lookup-domain path pkgs))
  | inr (x, e) ↦ ground (arith, e, lookup-insert path p (record x { alias = alias }) pkgs)
]

domain-set_alias :
    (k path alias : Str) (pkgs : List (Str × GoPkg))
    → has path (domain pkgs) ≡ true
    → has k (domain (set_alias path alias pkgs)) ≡ has k (domain pkgs)
domain-set_alias k path alias pkgs h = elim (Option-cases (lookup path pkgs)) [
  | inl e ↦ absurd (ground (arith, h, lookup-domain path pkgs))
  | inr (x, e) ↦
      ground
        (arith, e, h, domain-insert k path (record x { alias = alias }) pkgs, str_eq_iff k path)
]

IsAssigned-fewer :
    (reserved : List Str) (done some_done : Str → Bool) (pkgs : List (Str × GoPkg))
    → ((p : Str) → some_done p ≡ true → done p ≡ true)
    → IsAssigned reserved done pkgs
    → IsAssigned reserved some_done pkgs
IsAssigned-fewer reserved done some_done pkgs f a = record {
  free = λ p h. a.free p (f p h);
  apart = λ p q h k e. a.apart p q (f p h) (f q k) e;
}

-- The packages of the paths, without the local one, and those that were done before.
abbrev pub done_after : Str → List Str → (Str → Bool) → Str → Bool
done_after local_path paths done p = done p || (has p paths && not (str_eq p local_path))

module _ (print_int : ℕ → Str) (printing : IsPrinting print_int) (local_path : Str)
    (reserved : List Str) where
  record Inv (done : Str → Bool) (aliases : List Str) (pkgs : List (Str × GoPkg)) : Type 0 where
    assigned : IsAssigned reserved done pkgs
    used : (p : Str) → done p ≡ true → has (alias_of p pkgs) aliases ≡ true
    covered : (k : Str) → has k reserved ≡ true → has k aliases ≡ true

  Inv-set_alias :
      (done : Str → Bool) (aliases : List Str) (pkgs : List (Str × GoPkg)) (path alias : Str)
      → Inv done aliases pkgs
      → has path (domain pkgs) ≡ true
      → has alias aliases ≡ false
      → Inv (λ p. done p || str_eq p path) (alias ∷ aliases) (set_alias path alias pkgs)
  unfolding has
  Inv-set_alias done aliases pkgs path alias i here new = record {
    assigned = record {
      free = λ p h. ground (arith, now p, h, i.assigned.free p, i.covered alias, new);
      apart = λ p q h k e. ground (
        arith,
        now p,
        now q,
        h,
        k,
        e,
        i.assigned.apart p q,
        i.used p,
        i.used q,
        new,
        str_eq_iff p path,
        str_eq_iff q path,
      );
    };
    used = λ p h. ground (arith, now p, h, i.used p, str_eq_refl alias);
    covered = λ k h. ground (arith, i.covered k, h);
  }
    where
      now :
          (p : Str)
          → alias_of p (set_alias path alias pkgs)
            ≡ (if str_eq p path then alias else alias_of p pkgs)
      now p = alias_of-set_alias path alias p pkgs here

  assign_loop_lem :
      (paths : List Str) (done : Str → Bool) (aliases : List Str) (pkgs : List (Str × GoPkg))
      → ((p : Str) → has p paths ≡ true → has p (domain pkgs) ≡ true)
      → Inv done aliases pkgs
      → (pkgs' : List (Str × GoPkg)) × (assign_loop print_int local_path paths aliases pkgs
          ≡ some pkgs')
        × IsAssigned reserved (done_after local_path paths done) pkgs'
  unfolding assign_loop has
  assign_loop_lem [] done aliases pkgs inside i = (
    pkgs,
    refl,
    IsAssigned-fewer reserved done (done_after local_path [] done) pkgs (λ p h. ground (arith, h))
        i.assigned,
  )
  assign_loop_lem (path ∷ paths) done aliases pkgs inside i =
      elim (Bool-cases (str_eq path local_path)) [
        | inl e ↦
            let (pkgs', r, a) =
              assign_loop_lem paths done aliases pkgs (λ p h. inside p (ground (arith, h))) i in
            (
              pkgs',
              rw (e, assign_loop) r,
              IsAssigned-fewer reserved (done_after local_path paths done)
                  (done_after local_path (path ∷ paths) done) pkgs'
                  (λ p h. ground (arith, h, e, str_eq_iff p path)) a,
            )
        | inr e ↦
            let count : ℕ = if str_eq (split_file path) (split_file local_path) then 1 else 0 in
            let (alias, picked, new) =
              pick_alias_lem print_int printing (split_file path) count aliases in
            let here = inside path (ground (arith, str_eq_refl path)) in
            let (pkgs', r, a) =
              assign_loop_lem paths (λ p. done p || str_eq p path) (alias ∷ aliases)
                (set_alias path alias pkgs)
                (λ p h. domain-set_alias p path alias pkgs here ∙ inside p (ground (arith, h)))
                (Inv-set_alias done aliases pkgs path alias i here new) in
            (
              pkgs',
              rw (e, assign_loop) (rw picked r),
              IsAssigned-fewer reserved (done_after local_path paths (λ p. done p || str_eq p path))
                  (done_after local_path (path ∷ paths) done) pkgs' (λ p h. ground (arith, h)) a,
            )
      ]

-- The packages of a map but the local one.
abbrev pub imported : GoPkgMap → Str → Bool
imported m p = has p (domain m.pkgs) && not (str_eq p m.local_path)

-- When numbers are printed as different, non-empty strings, the loops of `AssignAliases` end, and
-- the packages but the local one have different aliases, none of which is reserved.
pub assign_aliases-IsAssigned :
    (print_int : ℕ → Str)
    → IsPrinting print_int
    → (m : GoPkgMap)
    → (m' : GoPkgMap) × (assign_aliases print_int m ≡ some m')
      × IsAssigned m.reserved (imported m) m'.pkgs
unfolding assign_aliases
assign_aliases-IsAssigned print_int printing m =
    let (pkgs', r, a) =
      assign_loop_lem print_int printing m.local_path m.reserved (sort_strings (domain m.pkgs))
        (λ p. false) m.reserved m.pkgs (λ p h. (sorted p).0 h)
        (record {
          assigned = record { free = λ p h. absurd (cc); apart = λ p q h k e. absurd (cc) };
          used = λ p h. absurd (cc);
          covered = λ k h. h;
        }) in
    (
      record m { pkgs = pkgs' },
      rw (r, assign_aliases) refl,
      IsAssigned-fewer m.reserved _ (imported m) pkgs' (λ p h. ground (arith, h, sorted p)) a,
    )
  where
    sorted :
        (p : Str) → (has p (sort_strings (domain m.pkgs)) ≡ true) ↔ (has p (domain m.pkgs) ≡ true)
    sorted p = ground (
      arith,
      has-occ p (domain m.pkgs),
      has-occ p (sort_strings (domain m.pkgs)),
      occ-sort_strings p (domain m.pkgs),
    )
