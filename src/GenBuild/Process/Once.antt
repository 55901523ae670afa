-- ===== src/GenBuild/Process/Once.antt =====
-- `Process` of go/src/dropbox/build_tools/gen-build-go/gen-build-go.go ends, generates each package
-- at most once, and leaves out nothing that a package needs.
use dbx_build_tools.Base.{
  ℕ, ◌+◌, ◌<◌, ◌≤◌, ◌≡◌, refl, sym, ap, subst, ◌∙◌, Bool, true, false, not, ◌&&◌, ◌||◌, Option,
  none, some, List, [], ◌∷◌, ◌++◌, Str, str_eq, str_eq_iff, str_eq_sym, has, has-append, Distinct,
  if◌then◌else◌, arith, Bool-cases, Option-cases, inl, inr,
}
use dbx_build_tools.GenBuild.Write.{is_builtin_pkg}
use dbx_build_tools.GenBuild.Process.{
  Package, Populated, absent, found, GenEnv, Generator, is_dbx_pkg, drop_last, is_builtin,
  deps_loop, create_deps, deps_if, generate_config, should_generate, visit_loop,
}

-- How many of the packages are not on the stack.
abbrev pub left : List Str → List Str → ℕ
left [] stack = 0
left (p ∷ ps) stack = (if has p stack then 0 else 1) + left ps stack

left-append : (ps stack : List Str) (p : Str) → left ps (stack ++ p ∷ []) ≤ left ps stack
left-append [] stack p = omega arith
left-append (q ∷ ps) stack p = ground (arith, left-append ps stack p, has-append q stack (p ∷ []))

pub left_falls :
    (ps stack : List Str) (p : Str)
    → has p ps ≡ true
    → has p stack ≡ false
    → left ps (stack ++ p ∷ []) < left ps stack
unfolding has
left_falls [] stack p h k = absurd (cc (h))
left_falls (q ∷ ps) stack p h k = elim (Bool-cases (str_eq p q)) [
  | inl e ↦
      let same : p ≡ q = (str_eq_iff p q).0 e in
      let here : has q stack ≡ false = subst (λ z. has z stack ≡ false) same k in
      let now : has q (stack ++ p ∷ []) ≡ true =
        ground (arith, has-append q stack (p ∷ []), e, str_eq_sym p q) in
      ground (arith, left-append ps stack p, here, now)
  | inr e ↦ ground (
    arith,
    left_falls ps stack p (ground (arith, h, e)) k,
    has-append q stack (p ∷ []),
    e,
    str_eq_sym p q,
  )
]

pub drop_last-append : (l : List Str) (p : Str) → drop_last (l ++ p ∷ []) ≡ l
drop_last-append [] p = refl
drop_last-append (x ∷ []) p = refl
drop_last-append (x ∷ y ∷ l) p = ap (λ z. x ∷ z) (drop_last-append (y ∷ l) p)

abbrev pub settled : Generator → Str → Bool
settled g d = has d g.processed_pkgs || has d g.visit_stack

module _ {E : Type 0} (env : GenEnv E) where
  open env use {join_module, imported, exists, populate}

  -- `golangPkgs` holds packages of the Go tree only.
  abbrev pub AreKnown : List Str → Type 0
  AreKnown golang = (k : Str) → has k golang ≡ true → imported k ≡ true

  pub is_builtin-known :
      (p : Str) (golang : List Str)
      → AreKnown golang
      → ((is_builtin env p golang).0 ≡ (is_builtin env p []).0)
        × AreKnown (is_builtin env p golang).1
  unfolding is_builtin is_builtin_pkg has
  is_builtin-known p golang known =
      (ground (arith, known p), λ k. ground (arith, known k, str_eq_iff k p))

  deps_loop-known :
      (pkgs deps golang : List Str) → AreKnown golang → AreKnown (deps_loop env pkgs deps golang).1
  unfolding deps_loop
  deps_loop-known [] deps golang known = known
  deps_loop-known (p ∷ pkgs) deps golang known =
      deps_loop-known pkgs _ (is_builtin env p golang).1 (is_builtin-known p golang known).1

  create_deps-known :
      (pkgs golang : List Str) → AreKnown golang → AreKnown (create_deps env pkgs golang).1
  unfolding create_deps
  create_deps-known pkgs golang known = deps_loop-known pkgs [] golang known

  deps_if-known :
      (b : Bool) (pkgs golang : List Str) → AreKnown golang → AreKnown (deps_if env b pkgs golang).1
  unfolding deps_if
  deps_if-known true pkgs golang known = create_deps-known pkgs golang known
  deps_if-known false pkgs golang known = known

  pub generate_config-known :
      (pkg : Package) (golang : List Str)
      → AreKnown golang
      → AreKnown (generate_config env pkg golang).1
  unfolding generate_config
  generate_config-known pkg golang known =
      let golang1 = (create_deps env pkg.imports golang).1 in
      let known1 = create_deps-known pkg.imports golang known in
      let tests = is_dbx_pkg pkg.import_path && pkg.has_tests in
      let x_tests = is_dbx_pkg pkg.import_path && pkg.has_x_tests in
      let known2 = deps_if-known tests pkg.test_imports golang1 known1 in
      let known3 = deps_if-known x_tests pkg.x_test_imports _ known2 in
      elim (Option-cases (env.attributes pkg)) [
        | inl e ↦ λ k. rw (generate_config, e) (known3 k)
        | inr (x, e) ↦ λ k. rw (generate_config, e) (known1 k)
      ]

  abbrev pub needs_of : Str → Populated E → List Str
  needs_of p (absent e) = []
  needs_of p (found pkg) = pkg.imports ++ (if is_dbx_pkg p then pkg.test_imports else [])

  -- The packages that the file of a package needs.
  abbrev pub needs : Str → List Str
  needs p = needs_of p (populate p)

  abbrev pub is_found : Populated E → Bool
  is_found (absent e) = false
  is_found (found pkg) = true

  -- A package with a file to generate: it is not built in, its directory exists, and it can be read.
  abbrev pub wanted : Str → Bool
  wanted p = not (is_builtin env (join_module p) []).0 && (exists p && is_found (populate p))

  abbrev pub visits : Str → Str → Bool
  visits p d = not (str_eq d p || not (should_generate env d))

  pub record IsSound (g : Generator) : Type 0 where
    pub apart : (k : Str) → has k g.visit_stack ≡ true → has k g.processed_pkgs ≡ false
    pub once : Distinct g.processed_pkgs
    pub known : AreKnown g.golang_pkgs

  -- What the package that a file was generated for needs is generated, or being visited.
  abbrev pub AreClosed : Generator → Type 0
  AreClosed g =
      (p d : Str)
      → has p g.processed_pkgs ≡ true
      → has d (needs p) ≡ true
      → visits p d ≡ true
      → wanted d ≡ true
      → settled g d ≡ true

  pub record HasRun (g g' : Generator) : Type 0 where
    pub same_stack : g'.visit_stack ≡ g.visit_stack
    pub grows : (k : Str) → has k g.processed_pkgs ≡ true → has k g'.processed_pkgs ≡ true
    pub sound : IsSound g'

  pub HasRun-trans : (g g1 g2 : Generator) → HasRun g g1 → HasRun g1 g2 → HasRun g g2
  HasRun-trans g g1 g2 a b = record {
    same_stack = b.same_stack ∙ a.same_stack;
    grows = λ k h. b.grows k (a.grows k h);
    sound = b.sound;
  }

  pub settled-HasRun :
      (g g' : Generator) (d : Str) → HasRun g g' → settled g d ≡ true → settled g' d ≡ true
  settled-HasRun g g' d run h = ground (arith, h, run.grows d, run.same_stack)

  -- One call of `process`: it returns, and without an error the package is generated or visited.
  abbrev pub Handles : (Str → Generator → Option (Option E × Generator)) → Str → Generator → Type 0
  Handles f p g =
      (e : Option E) × (g' : Generator) × (f p g ≡ some (e, g'))
      × HasRun g g'
      × (e ≡ none → AreClosed g → AreClosed g' × (wanted p ≡ true → settled g' p ≡ true))

  pub visit_loop-Handles :
      (f : Str → Generator → Option (Option E × Generator)) (self : Str) (deps stack : List Str)
      → ((d : Str) (g : Generator) → g.visit_stack ≡ stack → IsSound g → Handles f d g)
      → (g : Generator) → g.visit_stack ≡ stack
      → IsSound g
      → (e : Option E) × (g' : Generator) × (visit_loop env f self deps g ≡ some (e, g'))
        × HasRun g g'
        × (e ≡ none
            → AreClosed g
            → AreClosed g'
              × ((d : Str)
                  → has d deps ≡ true
                  → visits self d ≡ true
                  → wanted d ≡ true
                  → settled g' d ≡ true))
  unfolding visit_loop has
  visit_loop-Handles f self [] stack h g same sound = (
    none,
    g,
    refl,
    record { same_stack = refl; grows = λ k m. m; sound = sound },
    λ _ closed. (closed, λ d m. absurd (cc (m))),
  )
  visit_loop-Handles f self (dep ∷ deps) stack h g same sound =
      elim (Bool-cases (str_eq dep self || not (should_generate env dep))) [
        | inl skip ↦
            let (e, g', eq, run, ends) = visit_loop-Handles f self deps stack h g same sound in
            (
              e,
              g',
              rw skip eq,
              run,
              λ n closed.
                  let (closed', all) = ends n closed in
                  (
                    closed',
                    λ d m v w. elim (Bool-cases (str_eq d dep)) [
                      | inl is_dep ↦ absurd (
                          let eq' = (str_eq_iff d dep).0 is_dep in
                          let v' : visits self dep ≡ true =
                            subst (λ z. visits self z ≡ true) eq' v in
                          ground (arith, v', skip))
                      | inr no_dep ↦ all d (rw no_dep at m) v w
                    ],
                  ),
            )
        | inr visit ↦
            let (e1, g1, eq1, run1, ends1) = h dep g same sound in
            elim (Option-cases e1) [
              | inr (x, failed) ↦ (
                some (env.failed_to_process dep x),
                g1,
                rw (visit, eq1, failed) refl,
                run1,
                λ n. absurd (cc (n)),
              )
              | inl fine ↦
                  let (e, g', eq, run, ends) =
                    visit_loop-Handles f self deps stack h g1 (run1.same_stack ∙ same) run1.sound in
                  (
                    e,
                    g',
                    rw (visit, eq1, fine) eq,
                    HasRun-trans g g1 g' run1 run,
                    λ n closed.
                        let (closed1, done) = ends1 fine closed in
                        let (closed', all) = ends n closed1 in
                        (
                          closed',
                          λ d m v w. elim (Bool-cases (str_eq d dep)) [
                            | inl is_dep ↦
                                let eq' = (str_eq_iff d dep).0 is_dep in
                                settled-HasRun g1 g' d run (
                                  subst (λ z. wanted z ≡ true → settled g1 z ≡ true) (sym eq') done
                                    w)
                            | inr no_dep ↦ all d (rw no_dep at m) v w
                          ],
                        ),
                  )
            ]
      ]
