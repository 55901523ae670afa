-- ===== src/GenBuild/Process/Complete.antt =====
-- What `Process` of go/src/dropbox/build_tools/gen-build-go/gen-build-go.go has done when it returns.
use dbx_build_tools.Base.{
  ◌≡◌, sym, ap, subst, ◌∙◌, true, false, ◌||◌, Option, none, some, List, [], ◌∷◌, ◌++◌, Str, str_eq,
  str_eq_iff, has, has-append, has-occ, occ, occ-append, arith, Bool-cases, inl, inr,
}
use dbx_build_tools.GenBuild.Process.{absent, GenEnv, Generator, drop_last}
use dbx_build_tools.GenBuild.Process.Once.{
  drop_last-append, AreKnown, HasRun, needs, wanted, visits, settled, IsSound, AreClosed,
}

abbrev pub popped : Generator → Generator
popped g = record g { visit_stack = drop_last g.visit_stack }

module _ {E : Type 0} (env : GenEnv E) (p : Str) (stack : List Str)
    (fresh : has p stack ≡ false) where
  open env use {join_module, imported, exists, populate}

  -- What a visit of `p` leaves, when its place on the stack is given up.
  pub record IsLeft (g : Generator) (e : Option E) (g' : Generator) : Type 0 where
    pub same_stack : g'.visit_stack ≡ stack ++ p ∷ []
    pub grows : (k : Str) → has k g.processed_pkgs ≡ true → has k g'.processed_pkgs ≡ true
    pub sound : IsSound env (popped g')
    pub ends :
        e ≡ none
        → AreClosed env g
        → AreClosed env (popped g') × (wanted env p ≡ true → has p g'.processed_pkgs ≡ true)

  popped-stack : (g : Generator) → g.visit_stack ≡ stack ++ p ∷ [] → (popped g).visit_stack ≡ stack
  popped-stack g same = ap drop_last same ∙ drop_last-append stack p

  popped-IsSound :
      (g : Generator) → g.visit_stack ≡ stack ++ p ∷ [] → IsSound env g → IsSound env (popped g)
  popped-IsSound g same sound = record {
    apart = λ k h.
        let h' : has k stack ≡ true = rw (popped-stack g same) at h in
        sound.apart k (rw same (ground (arith, h', has-append k stack (p ∷ []))));
    once = sound.once;
    known = sound.known;
  }

  -- The visit failed.
  pub failed-IsLeft :
      (g g' : Generator) (x : E)
      → g.visit_stack ≡ stack ++ p ∷ []
      → HasRun env g g'
      → IsLeft g (some x) g'
  failed-IsLeft g g' x same run = record {
    same_stack = run.same_stack ∙ same;
    grows = run.grows;
    sound = popped-IsSound g' (run.same_stack ∙ same) run.sound;
    ends = λ n. absurd (cc (n));
  }

  pub absent-IsLeft :
      (g : Generator) (e : Option E)
      → populate p ≡ absent e
      → g.visit_stack ≡ stack ++ p ∷ []
      → IsSound env g
      → IsLeft g e g
  absent-IsLeft g e gone same sound =
      let unwanted : wanted env p ≡ false = ground (arith, gone) in
      record {
        same_stack = same;
        grows = λ k h. h;
        sound = popped-IsSound g same sound;
        ends = λ _ closed. (
          λ q d h m v w.
              let known = closed q d h m v w in
              let known' : (has d g.processed_pkgs || has d (stack ++ p ∷ [])) ≡ true =
                subst (λ z. (has d g.processed_pkgs || has d z) ≡ true) same known in
              let other : str_eq d p ≡ false = elim (Bool-cases (str_eq d p)) [
                | inl e ↦ absurd (
                    let w' = subst (λ z. wanted env z ≡ true) ((str_eq_iff d p).0 e) w in
                    ground (arith, w', unwanted))
                | inr e ↦ e
              ] in
              rw (popped-stack g same)
                (unfold has in ground (arith, known', has-append d stack (p ∷ []), other)),
          λ w. absurd (ground (arith, w, unwanted)),
        );
      }

  -- After the visits of what `p` needs.
  abbrev pub Visited : Generator → Generator → Type 0
  Visited g g1 =
      AreClosed env g
      → AreClosed env g1
        × ((d : Str)
            → has d (needs env p) ≡ true
            → visits env p d ≡ true
            → wanted env d ≡ true
            → settled g1 d ≡ true)

  abbrev pub wrote : List Str → Generator → Generator
  wrote golang g = record g { golang_pkgs = golang; processed_pkgs = g.processed_pkgs ++ p ∷ [] }

  -- The file of `p` was written.
  pub wrote-IsLeft :
      (g g1 : Generator) (golang : List Str)
      → g.visit_stack ≡ stack ++ p ∷ []
      → HasRun env g g1
      → AreKnown env golang
      → Visited g g1
      → IsLeft g none (wrote golang g1)
  wrote-IsLeft g g1 golang same run known ends =
      let same1 : g1.visit_stack ≡ stack ++ p ∷ [] = run.same_stack ∙ same in
      let pops = popped-stack (wrote golang g1) same1 in
      let adds = λ (k : Str). has-append k g1.processed_pkgs (p ∷ []) in
      let on_top : has p g1.visit_stack ≡ true =
        rw same1 (unfold has in ground (arith, has-append p stack (p ∷ []), str_eq_iff p p)) in
      let new : has p g1.processed_pkgs ≡ false = run.sound.apart p on_top in
      let settles : (d : Str) → settled g1 d ≡ true → settled (popped (wrote golang g1)) d ≡ true =
        λ d h.
          let h' : (has d g1.processed_pkgs || has d (stack ++ p ∷ [])) ≡ true =
            subst (λ z. (has d g1.processed_pkgs || has d z) ≡ true) same1 h in
          rw pops (ground (arith, h', adds d, has-append d stack (p ∷ []))) in
      record {
        same_stack = same1;
        grows = λ k h. ground (arith, adds k, run.grows k h);
        sound = record {
          apart = λ k h.
              let h' : has k stack ≡ true = rw pops at h in
              let old : has k g1.processed_pkgs ≡ false =
                run.sound.apart k (rw same1 (ground (arith, h', has-append k stack (p ∷ [])))) in
              let other : str_eq k p ≡ false = elim (Bool-cases (str_eq k p)) [
                | inl e ↦ absurd (
                    let h'' = subst (λ z. has z stack ≡ true) ((str_eq_iff k p).0 e) h' in
                    cc (h'', fresh))
                | inr e ↦ e
              ] in
              unfold has in ground (arith, adds k, old, other);
          once = λ k.
              unfold occ in
              ground (
                arith,
                occ-append k g1.processed_pkgs (p ∷ []),
                run.sound.once k,
                has-occ k g1.processed_pkgs,
                new,
                str_eq_iff k p,
              );
          known = known;
        };
        ends = λ _ closed.
            let (closed1, all) = ends closed in
            (
              λ q d h m v w. elim (Bool-cases (has q g1.processed_pkgs)) [
                | inl old ↦ settles d (closed1 q d old m v w)
                | inr no_old ↦
                    let is_p : q ≡ p =
                      (str_eq_iff q p).0 (unfold has in ground (arith, adds q, h, no_old)) in
                    settles d (
                      subst
                        (λ z.
                          has d (needs env z) ≡ true
                          → visits env z d ≡ true
                          → wanted env d ≡ true
                          → settled g1 d ≡ true)
                        (sym is_p) (all d) m v w)
              ],
              λ _. unfold has in ground (arith, adds p, str_eq_iff p p),
            );
      }
