-- ===== src/Svcctl/Processor/Pass.antt =====
-- One pass of the loop of `CreateBatch` in go/src/dropbox/build_tools/svcctl/processor.go.
use dbx_build_tools.Base.{
  ◌≤◌, ◌<◌, ◌≡◌, refl, subst, ◌≢◌, ◌⊎◌, inl, inr, true, false, ◌||◌, List, [], ◌∷◌, map, Memᴰ,
  Memᴰ-cons, not-Memᴰ-nil, Str, str_eq, str_eq_iff, str_eq_refl, has, occ, Distinct, domain-insert,
  length, arith,
}
use dbx_build_tools.Base.Result.{Result, ok, err, panic}
use dbx_build_tools.Svcctl.Proto.{ServiceProto}
use dbx_build_tools.Svcctl.Service.{ServiceEnv, CreateError, new_service}
use dbx_build_tools.Svcctl.Processor.{Processor, register, create, create_pass}
use dbx_build_tools.Svcctl.Processor.Create.{
  names, IsSound, Creatable, create-ok, create-Created, resolve-ne-panic,
}

-- The names of the services of a request.
abbrev pub declared_names : List ServiceProto → List Str
declared_names svcs = map (λ svc. svc.service_name) svcs

pub occ-mem_name :
    (svcs : List ServiceProto) (svc : ServiceProto)
    → Memᴰ svc svcs
    → 0 < occ svc.service_name (declared_names svcs)
unfolding occ
occ-mem_name [] svc m = absurd (not-Memᴰ-nil m)
occ-mem_name (x ∷ svcs) svc m = elim ((Memᴰ-cons svc x svcs).0 m) [
  | inl e ↦ rw e (ground (arith, str_eq_refl x.service_name))
  | inr n ↦ omega (arith, occ-mem_name svcs svc n)
]

module _ (env : ServiceEnv) where
  pub names-create :
      (svc : ServiceProto) (p p' : Processor) (k : Str)
      → create env svc p ≡ ok p'
      → has k (names p') ≡ (str_eq k svc.service_name || has k (names p))
  unfolding register
  names-create svc p p' k h =
      rw (create-Created env svc p p' h).registered
        (domain-insert k svc.service_name (length p.heap) p.services)

  create-ne-panic :
      (svc : ServiceProto) (p : Processor) → IsSound env svc → create env svc p ≢ panic
  unfolding create new_service
  create-ne-panic svc p s h =
      ground (arith, resolve-ne-panic p.services svc.dependencies, s.checks_eq, s.files_eq, h)

  pub data CreateCases (svc : ServiceProto) (p : Processor) : Type 0 where
    made : (p' : Processor) → create env svc p ≡ ok p' → CreateCases svc p
    refused : (e : CreateError) → create env svc p ≡ err e → CreateCases svc p

  pub create_cases : (svc : ServiceProto) (p : Processor) → IsSound env svc → CreateCases svc p
  create_cases svc p s = go (create env svc p) refl
    where
      go : (r : Result CreateError Processor) → create env svc p ≡ r → CreateCases svc p
      go (ok p') h = made p' h
      go (err e) h = refused e h
      go panic h = absurd (create-ne-panic svc p s h)

  -- What a pass leaves behind.
  pub record Pass (to_add : List ServiceProto) (p p' : Processor) (next : List ServiceProto)
      : Type 0 where
    pub grows : (k : Str) → has k (names p) ≡ true → has k (names p') ≡ true
    pub only :
        (k : Str)
        → has k (names p') ≡ true
        → (has k (names p) ≡ true) ⊎ (0 < occ k (declared_names to_add))
    pub kept : (svc : ServiceProto) → Memᴰ svc next → Memᴰ svc to_add
    pub fresh : (svc : ServiceProto) → Memᴰ svc next → has svc.service_name (names p') ≡ false
    pub fewer : (k : Str) → occ k (declared_names next) ≤ occ k (declared_names to_add)
    pub added :
        (svc : ServiceProto)
        → Memᴰ svc to_add
        → Memᴰ svc next ⊎ (has svc.service_name (names p') ≡ true)
    pub shorter : length next ≤ length to_add
    pub stuck :
        length next ≡ length to_add
        → (p' ≡ p) × ((svc : ServiceProto) → Memᴰ svc to_add → ¬ Creatable env (names p) svc)

  -- No service of the list is known yet, and no two have one name.
  pub record Pending (to_add : List ServiceProto) (p : Processor) : Type 0 where
    pub unknown : (svc : ServiceProto) → Memᴰ svc to_add → has svc.service_name (names p) ≡ false
    pub apart : Distinct (declared_names to_add)
    pub sound : (svc : ServiceProto) → Memᴰ svc to_add → IsSound env svc

  Pending-refused :
      (svc : ServiceProto) (to_add : List ServiceProto) (p : Processor)
      → Pending (svc ∷ to_add) p
      → Pending to_add p
  unfolding occ
  Pending-refused svc to_add p h = record {
    unknown = λ x m. h.unknown x (Memᴰ.tail m);
    apart = λ k. omega (arith, h.apart k);
    sound = λ x m. h.sound x (Memᴰ.tail m);
  }

  Pending-made :
      (svc : ServiceProto) (to_add : List ServiceProto) (p p' : Processor)
      → create env svc p ≡ ok p'
      → Pending (svc ∷ to_add) p
      → Pending to_add p'
  unfolding occ
  Pending-made svc to_add p p' e h = record {
    unknown = λ x m. ground (
      arith,
      names-create svc p p' x.service_name e,
      h.unknown x (Memᴰ.tail m),
      h.apart x.service_name,
      occ-mem_name to_add x m,
      str_eq_iff x.service_name svc.service_name,
    );
    apart = λ k. omega (arith, h.apart k);
    sound = λ x m. h.sound x (Memᴰ.tail m);
  }

  Pass-made :
      (svc : ServiceProto) (to_add : List ServiceProto) (p p1 p' : Processor)
      (next : List ServiceProto)
      → create env svc p ≡ ok p1
      → Pass to_add p1 p' next
      → Pass (svc ∷ to_add) p p' next
  unfolding occ
  Pass-made svc to_add p p1 p' next e h =
      let grown = λ (k : Str). names-create svc p p1 k e in
      record {
        grows = λ k m. h.grows k (ground (arith, grown k));
        only = λ k m. ground (arith, grown k, h.only k m);
        kept = λ x m. Memᴰ.tail (h.kept x m);
        fresh = h.fresh;
        fewer = λ k. omega (arith, h.fewer k);
        added = λ x m. elim ((Memᴰ-cons x svc to_add).0 m) [
          | inl same ↦ inr (
              rw same (
                h.grows svc.service_name
                  (ground (arith, grown svc.service_name, str_eq_refl svc.service_name))))
          | inr n ↦ h.added x n
        ];
        shorter = omega (arith, h.shorter);
        stuck = λ l. absurd (omega (arith, h.shorter, l));
      }

  Pass-refused :
      (svc : ServiceProto) (to_add : List ServiceProto) (p p' : Processor)
      (next : List ServiceProto) (e : CreateError)
      → create env svc p ≡ err e
      → Pending (svc ∷ to_add) p
      → Pass to_add p p' next
      → Pass (svc ∷ to_add) p p' (svc ∷ next)
  unfolding occ
  Pass-refused svc to_add p p' next e r q h = record {
    grows = h.grows;
    only = λ k m. ground (arith, h.only k m);
    kept = λ x m. elim ((Memᴰ-cons x svc next).0 m) [
      | inl same ↦ Memᴰ.head same
      | inr n ↦ Memᴰ.tail (h.kept x n)
    ];
    fresh = λ x m. elim ((Memᴰ-cons x svc next).0 m) [
      | inl same ↦ rw same still_fresh
      | inr n ↦ h.fresh x n
    ];
    fewer = λ k. omega (arith, h.fewer k);
    added = λ x m. elim ((Memᴰ-cons x svc to_add).0 m) [
      | inl same ↦ inl (Memᴰ.head same)
      | inr n ↦ elim (h.added x n) [ inl left ↦ inl (Memᴰ.tail left) | inr known ↦ inr known ]
    ];
    shorter = omega (arith, h.shorter);
    stuck = λ l.
        let (same, rest) = h.stuck (omega (arith, l)) in
        (
          same,
          λ x m c. elim ((Memᴰ-cons x svc to_add).0 m) [
            | inl is ↦ cc (r, (create-ok env svc p (subst (Creatable env (names p)) is c)).1)
            | inr n ↦ rest x n c
          ],
        );
  }
    where
      still_fresh : has svc.service_name (names p') ≡ false
      still_fresh = ground (
        arith,
        h.only svc.service_name,
        q.unknown svc (Memᴰ.head refl),
        q.apart svc.service_name,
        str_eq_refl svc.service_name,
      )

  -- A pass over pending services ends without a panic and keeps its promises.
  pub create_pass-Pass :
      (to_add : List ServiceProto) (p : Processor)
      → Pending to_add p
      → (p' : Processor) × (next : List ServiceProto) × (errors : List CreateError) × (create_pass
            env to_add p
          ≡ ok (p', next, errors))
        × Pass to_add p p' next
  unfolding create_pass
  create_pass-Pass [] p q = (
    p,
    [],
    [],
    refl,
    record {
      grows = λ k m. m;
      only = λ k m. inl m;
      kept = λ x m. m;
      fresh = λ x m. absurd (not-Memᴰ-nil m);
      fewer = λ k. omega arith;
      added = λ x m. inl m;
      shorter = omega arith;
      stuck = λ l. (refl, λ x m c. not-Memᴰ-nil m);
    },
  )
  create_pass-Pass (svc ∷ to_add) p q = elim (create_cases svc p (q.sound svc (Memᴰ.head refl))) [
    | made p1 e ↦
        let (p', next, errors, r, h) =
          create_pass-Pass to_add p1 (Pending-made svc to_add p p1 e q) in
        (p', next, errors, rw (e, create_pass) r, Pass-made svc to_add p p1 p' next e h)
    | refused x e ↦
        let (p', next, errors, r, h) = create_pass-Pass to_add p (Pending-refused svc to_add p q) in
        (
          p',
          svc ∷ next,
          x ∷ errors,
          rw (e, create_pass) (rw r),
          Pass-refused svc to_add p p' next x e q h,
        )
  ]
