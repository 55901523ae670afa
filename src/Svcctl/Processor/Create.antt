-- ===== src/Svcctl/Processor/Create.antt =====
-- `create` of go/src/dropbox/build_tools/svcctl/processor.go, and which services it can create.
use dbx_build_tools.Base.{
  ℕ, ◌≡◌, refl, ◌≢◌, inl, inr, Bool, true, false, ◌||◌, Option, some, List, [], ◌∷◌, Memᴰ,
  Memᴰ-cons, not-Memᴰ-nil, Option-cases, Str, has, lookup, domain, lookup-domain, arith,
}
use dbx_build_tools.Base.Result.{ok, panic, >>=-ok_inv}
use dbx_build_tools.Svcctl.Proto.{ServiceProto}
use dbx_build_tools.Svcctl.Service.{
  ServiceEnv, Command, resolve, sort_checks, full_paths, new_service, service_def,
}
use dbx_build_tools.Svcctl.Processor.{Processor, register, create}

-- The names of the services that a processor knows.
abbrev pub names : Processor → List Str
names p = domain p.services

lookup-has :
    (k : Str) (services : List (Str × ℕ)) (a : ℕ)
    → lookup k services ≡ some a
    → has k (domain services) ≡ true
lookup-has k services a h = ground (arith, lookup-domain k services)

has-lookup :
    (k : Str) (services : List (Str × ℕ))
    → has k (domain services) ≡ true
    → (a : ℕ) × (lookup k services ≡ some a)
has-lookup k services h = elim (Option-cases (lookup k services)) [
  | inl e ↦ absurd (clash h ((lookup-domain k services).0 e))
  | inr found ↦ found
]
  where
    clash : {b : Bool} → b ≡ true → b ≡ false → ⊥
    clash x y = cc

pub resolve-declared :
    (services : List (Str × ℕ)) (deps : List Str) (addrs : List ℕ)
    → resolve services deps ≡ ok addrs
    → (d : Str) → Memᴰ d deps
    → has d (domain services) ≡ true
unfolding resolve
resolve-declared services [] addrs h d m = absurd (not-Memᴰ-nil m)
resolve-declared services (x ∷ deps) addrs h d m = elim (Option-cases (lookup x services)) [
  | inl e ↦ absurd (ground arith)
  | inr (a, e) ↦
      let (rest, r, _) =
        >>=-ok_inv (resolve services deps) (λ l. ok (a ∷ l)) (rw (e, resolve) at h) in
      elim ((Memᴰ-cons d x deps).0 m) [
        | inl same ↦ rw same (lookup-has x services a e)
        | inr n ↦ resolve-declared services deps rest r d n
      ]
]

pub resolve-ok :
    (services : List (Str × ℕ)) (deps : List Str)
    → ((d : Str) → Memᴰ d deps → has d (domain services) ≡ true)
    → (addrs : List ℕ) × (resolve services deps ≡ ok addrs)
unfolding resolve
resolve-ok services [] h = ([], refl)
resolve-ok services (x ∷ deps) h =
    let (a, e) = has-lookup x services (h x (Memᴰ.head refl)) in
    let (rest, r) = resolve-ok services deps (λ d m. h d (Memᴰ.tail m)) in
    (a ∷ rest, rw (e, resolve) (rw r))

pub resolve-ne-panic : (services : List (Str × ℕ)) (deps : List Str) → resolve services deps ≢ panic
unfolding resolve
resolve-ne-panic services [] h = cc
resolve-ne-panic services (x ∷ deps) h = ground (arith, resolve-ne-panic services deps)

module _ (env : ServiceEnv) where
  -- The parts of a declaration that do not depend on the other services are in order: its health
  -- checks and its version files.
  pub record IsSound (svc : ServiceProto) : Type 0 where
    pub checks : List Command × List (Option Str)
    pub checks_eq : sort_checks env svc.health_checks ≡ ok checks
    pub files : List Str
    pub files_eq : full_paths env.paths svc.version_files ≡ ok files

  -- Beside services of the names `known`, a service can be created.
  pub record Creatable (known : List Str) (svc : ServiceProto) : Type 0 where
    pub fresh : has svc.service_name known ≡ false
    pub declared : (d : Str) → Memᴰ d svc.dependencies → has d known ≡ true
    pub sound : IsSound svc

  -- A created service: where it stands, and what its fields are.
  pub record Created (svc : ServiceProto) (p p' : Processor) : Type 0 where
    pub creatable : Creatable (names p) svc
    pub addrs : List ℕ
    pub resolved : resolve p.services svc.dependencies ≡ ok addrs
    pub checks : List Command × List (Option Str)
    pub files : List Str
    pub registered :
        p'
        ≡ register svc.service_name
            (service_def env svc (p.verbose || svc.verbose) addrs checks files)
            p

  pub create-ok :
      (svc : ServiceProto) (p : Processor)
      → Creatable (names p) svc
      → (p' : Processor) × (create env svc p ≡ ok p')
  unfolding create new_service
  create-ok svc p c =
      let e = (lookup-domain svc.service_name p.services).1 c.fresh in
      let (addrs, r) = resolve-ok p.services svc.dependencies c.declared in
      (
        register svc.service_name
            (service_def env svc (p.verbose || svc.verbose) addrs c.sound.checks c.sound.files) p,
        rw (e, create) (rw r (rw c.sound.checks_eq (rw c.sound.files_eq))),
      )

  pub create-Created :
      (svc : ServiceProto) (p p' : Processor) → create env svc p ≡ ok p' → Created svc p p'
  unfolding create new_service
  create-Created svc p p' h = elim (Option-cases (lookup svc.service_name p.services)) [
    | inr (a, e) ↦ absurd (ground arith)
    | inl e ↦
        let (d, made, last) =
          >>=-ok_inv (new_service env svc p.services (p.verbose || svc.verbose))
            (λ d. ok (register svc.service_name d p)) (rw (e, create) at h) in
        let (addrs, r, h1) = >>=-ok_inv (resolve p.services svc.dependencies) _ made in
        let (checks, c, h2) = >>=-ok_inv (sort_checks env svc.health_checks) _ h1 in
        let (files, f, h3) = >>=-ok_inv (full_paths env.paths svc.version_files) _ h2 in
        record {
          creatable = record {
            fresh = (lookup-domain svc.service_name p.services).0 e;
            declared = resolve-declared p.services svc.dependencies addrs r;
            sound = record { checks = checks; checks_eq = c; files = files; files_eq = f };
          };
          addrs = addrs;
          resolved = r;
          checks = checks;
          files = files;
          registered = cc;
        }
  ]
