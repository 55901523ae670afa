-- ===== src/GenBuild/Process/Ends.antt =====
-- `Process` of go/src/dropbox/build_tools/gen-build-go/gen-build-go.go returns, with every package
-- that is needed generated once.
use dbx_build_tools.Base.{
  ℕ, zero, suc, ◌<◌, ◌≤◌, ◌≡◌, refl, sym, ap, subst, ◌∙◌, true, false, ◌||◌, Option, none, some,
  List, [], ◌∷◌, ◌++◌, length, Str, str_eq, str_eq_iff, has, has-append, if◌then◌else◌, arith,
  Bool-cases, Option-cases, inl, inr, ◌⊎◌,
}
use dbx_build_tools.GenBuild.Write.{validate_go_pkg_path, validate_go_pkg_path_iff}
use dbx_build_tools.GenBuild.Process.{
  Package, Populated, absent, found, GenEnv, Generator, is_dbx_pkg, drop_last, is_builtin,
  generate_config, finish, visited, process,
}
use dbx_build_tools.GenBuild.Process.Once.{
  left, left_falls, drop_last-append, generate_config-known, is_builtin-known, HasRun, HasRun-trans,
  needs, needs_of, wanted, visits, settled, IsSound, Handles, settled-HasRun, visit_loop-Handles,
}
use dbx_build_tools.GenBuild.Process.Complete.{
  popped, IsLeft, failed-IsLeft, absent-IsLeft, wrote-IsLeft, Visited, wrote,
}

Populated-cases :
    {E : Type 0} (x : Populated E)
    → ((e : Option E) × (x ≡ absent e)) ⊎ ((pkg : Package) × (x ≡ found pkg))
Populated-cases (absent e) = inl (e, refl)
Populated-cases (found pkg) = inr (pkg, refl)

Sum-cases : {A B : Type 0} (x : A ⊎ B) → ((a : A) × (x ≡ inl a)) ⊎ ((b : B) × (x ≡ inr b))
Sum-cases (inl a) = inl (a, refl)
Sum-cases (inr b) = inr (b, refl)

module _ {E : Type 0} (env : GenEnv E) where
  open env use {join_module, imported, exists, populate}

  module _ (p : Str) (stack : List Str) (fresh : has p stack ≡ false) where
    finish-IsLeft :
        (pkg : Package) (g g1 : Generator)
        → g.visit_stack ≡ stack ++ p ∷ []
        → HasRun env g g1
        → Visited env p stack fresh g g1
        → (e : Option E) × (g' : Generator) × (finish env p pkg g1 ≡ (e, g'))
          × IsLeft env p stack fresh g e g'
    unfolding finish
    finish-IsLeft pkg g g1 same run ends =
        let golang = (generate_config env pkg g1.golang_pkgs).1 in
        let known = generate_config-known env pkg g1.golang_pkgs run.sound.known in
        let g2 : Generator = record g1 { golang_pkgs = golang } in
        let run2 : HasRun env g g2 = record {
          same_stack = run.same_stack;
          grows = run.grows;
          sound = record { apart = run.sound.apart; once = run.sound.once; known = known };
        } in
        elim (Sum-cases (generate_config env pkg g1.golang_pkgs).0) [
          | inl (x, bad) ↦
              (some x, g2, rw (finish, bad) refl, failed-IsLeft env p stack fresh g g2 x same run2)
          | inr (config, good) ↦ elim (Option-cases (env.write_to_build_config_file pkg config)) [
            | inr (x, bad) ↦ (
              some x,
              g2,
              rw (finish, good, bad) refl,
              failed-IsLeft env p stack fresh g g2 x same run2,
            )
            | inl done ↦ (
              none,
              wrote env p stack fresh golang g1,
              rw (finish, good, done) refl,
              wrote-IsLeft env p stack fresh g g1 golang same run known ends,
            )
          ]
        ]

    visited-IsLeft :
        (f : Str → Generator → Option (Option E × Generator))
        → ((d : Str) (g : Generator)
            → g.visit_stack ≡ stack ++ p ∷ []
            → IsSound env g
            → Handles env f d g)
        → (g : Generator) → g.visit_stack ≡ stack ++ p ∷ []
        → IsSound env g
        → (e : Option E) × (g' : Generator) × (visited env f p g ≡ some (e, g'))
          × IsLeft env p stack fresh g e g'
    unfolding visited
    visited-IsLeft f h g same sound = elim (Populated-cases (populate p)) [
      | inl (e, gone) ↦
          (e, g, rw (visited, gone) refl, absent-IsLeft env p stack fresh g e gone same sound)
      | inr (pkg, there) ↦
          let (e1, g1, eq1, run1, ends1) =
            visit_loop-Handles env f p pkg.imports (stack ++ p ∷ []) h g same sound in
          elim (Option-cases e1) [
            | inr (x, bad) ↦ (
              some x,
              g1,
              rw (visited, there, eq1, bad) refl,
              failed-IsLeft env p stack fresh g g1 x same run1,
            )
            | inl fine1 ↦
                let tests = if is_dbx_pkg p then pkg.test_imports else [] in
                let (e2, g2, eq2, run2, ends2) =
                  visit_loop-Handles env f p tests (stack ++ p ∷ []) h g1 (run1.same_stack ∙ same)
                    run1.sound in
                let run = HasRun-trans env g g1 g2 run1 run2 in
                elim (Option-cases e2) [
                  | inr (x, bad) ↦ (
                    some x,
                    g2,
                    rw (visited, there, eq1, fine1, eq2, bad) refl,
                    failed-IsLeft env p stack fresh g g2 x same run,
                  )
                  | inl fine2 ↦
                      let both : Visited env p stack fresh g g2 = λ closed.
                        let (closed1, all1) = ends1 fine1 closed in
                        let (closed2, all2) = ends2 fine2 closed1 in
                        (
                          closed2,
                          λ d m v w.
                              let list : needs env p ≡ pkg.imports ++ tests =
                                ap (needs_of env p) there in
                              let m' = subst (λ z. has d z ≡ true) list m in
                              elim (Bool-cases (has d pkg.imports)) [
                                | inl a ↦ settled-HasRun env g1 g2 d run2 (all1 d a v w)
                                | inr b ↦
                                    all2 d (ground (arith, m', b, has-append d pkg.imports tests)) v
                                      w
                              ],
                        ) in
                      let (e, g', eq, done) = finish-IsLeft pkg g g2 same run both in
                      (e, g', rw (visited, there, eq1, fine1, eq2, fine2, eq) refl, done)
                ]
          ]
    ]

  -- `Process` ends in a state in which the stack is as before, no package is there twice, and
  -- without an error the package and all that is needed are generated or being visited.
  process-Handles :
      (universe : List Str)
      → ((k : Str) → exists k ≡ true → has k universe ≡ true)
      → (fuel : ℕ) (p : Str) (g : Generator) → left universe g.visit_stack < fuel
      → IsSound env g
      → Handles env (process env fuel) p g
  unfolding process
  process-Handles universe there zero p g more sound = absurd (omega (arith, more))
  process-Handles universe there (suc fuel) p g more sound =
      let golang = (is_builtin env (join_module p) g.golang_pkgs).1 in
      let (same_builtin, known) = is_builtin-known env (join_module p) g.golang_pkgs sound.known in
      let iff =
        validate_go_pkg_path_iff (is_builtin env (join_module p) g.golang_pkgs).0 (exists p) p
          g.processed_pkgs g.visit_stack in
      elim (Bool-cases (
        validate_go_pkg_path (is_builtin env (join_module p) g.golang_pkgs).0 p g.processed_pkgs
          (exists p) g.visit_stack)) [
            | inr bad ↦ (
              none,
              record g { golang_pkgs = golang },
              rw (process, bad) refl,
              record {
                same_stack = refl;
                grows = λ k h. h;
                sound = record { apart = sound.apart; once = sound.once; known = known };
              },
              λ _ closed. (closed, λ w. ground (arith, w, iff, bad, same_builtin)),
            )
            | inl ok ↦
                let (not_builtin, new, here, fresh) = iff.0 ok in
                let stack = g.visit_stack ++ p ∷ [] in
                let pushed : Generator = record g { golang_pkgs = golang; visit_stack = stack } in
                let less = left_falls universe g.visit_stack p (there p here) fresh in
                let pushed_sound : IsSound env pushed = record {
                  apart = λ k h. elim (Bool-cases (str_eq k p)) [
                    | inl e ↦
                        subst (λ z. has z g.processed_pkgs ≡ false) (sym ((str_eq_iff k p).0 e)) new
                    | inr e ↦
                        sound.apart k
                          (unfold has in ground (arith, h, e, has-append k g.visit_stack (p ∷ [])))
                  ];
                  once = sound.once;
                  known = known;
                } in
                let (e, g2, eq, l) =
                  visited-IsLeft p g.visit_stack fresh (process env fuel)
                    (λ d g' same' sound'.
                      process-Handles universe there fuel d g'
                        (rw same' (omega (arith, less, more))) sound')
                    pushed refl pushed_sound in
                (
                  e,
                  popped g2,
                  rw (process, ok, eq) refl,
                  record {
                    same_stack = ap drop_last l.same_stack ∙ drop_last-append g.visit_stack p;
                    grows = l.grows;
                    sound = l.sound;
                  },
                  λ n closed.
                      let (closed2, done) = l.ends n (λ q d h m v w.
                        ground (arith, closed q d h m v w, has-append d g.visit_stack (p ∷ []))) in
                      (closed2, λ w. ground (arith, done w)),
                )
          ]

  left-length : (ps stack : List Str) → left ps stack ≤ length ps
  left-length [] stack = omega arith
  left-length (q ∷ ps) stack = ground (arith, left-length ps stack)

  -- The packages that have a file need, apart from themselves, only packages that have one, built-in
  -- ones, and ones that cannot be read or are not asked for.
  abbrev pub AreServed : List Str → Type 0
  AreServed done =
      (q d : Str)
      → has q done ≡ true
      → has d (needs env q) ≡ true
      → visits env q d ≡ true
      → wanted env d ≡ true
      → has d done ≡ true

  pub record IsProcessed (p : Str) (g : Generator) (e : Option E) (g' : Generator) : Type 0 where
    pub off_stack : g'.visit_stack ≡ []
    pub sound : IsSound env g'
    pub grows : (k : Str) → has k g.processed_pkgs ≡ true → has k g'.processed_pkgs ≡ true
    pub whole :
        e ≡ none
        → AreServed g.processed_pkgs
        → AreServed g'.processed_pkgs × (wanted env p ≡ true → has p g'.processed_pkgs ≡ true)

  -- With more fuel than there are package directories, an empty stack, and tables as earlier calls
  -- leave them (no package twice, and only packages of the Go tree among those known as built in),
  -- `Process` returns, with the stack empty again and no package generated twice. When it returns no
  -- error and every package before had what it needs, every package now has, cycles of imports or
  -- not, and the package has its file unless it is built in, has no directory or cannot be read.
  pub process_complete :
      (universe : List Str) (fuel : ℕ) (p : Str) (g : Generator)
      → ((k : Str) → exists k ≡ true → has k universe ≡ true)
      → length universe < fuel
      → g.visit_stack ≡ []
      → IsSound env g
      → (e : Option E) × (g' : Generator) × (process env fuel p g ≡ some (e, g'))
        × IsProcessed p g e g'
  process_complete universe fuel p g there more empty sound =
      let few = left-length universe g.visit_stack in
      let (e, g', eq, run, ends) =
        process-Handles universe there fuel p g (omega (arith, few, more)) sound in
      let empty' : g'.visit_stack ≡ [] = run.same_stack ∙ empty in
      let flat : (d : Str) → settled g' d ≡ true → has d g'.processed_pkgs ≡ true = λ d h.
        let h' : (has d g'.processed_pkgs || has d []) ≡ true =
          subst (λ z. (has d g'.processed_pkgs || has d z) ≡ true) empty' h in
        unfold has in ground (arith, h') in
      (
        e,
        g',
        eq,
        record {
          off_stack = empty';
          sound = run.sound;
          grows = run.grows;
          whole = λ n served.
              let (closed, done) = ends n (λ q d h m v w. ground (arith, served q d h m v w)) in
              (λ q d h m v w. flat d (closed q d h m v w), λ w. flat p (done w));
        },
      )
