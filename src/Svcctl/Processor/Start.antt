-- ===== src/Svcctl/Processor/Start.antt =====
-- The references between services, as `CreateBatch` of
-- go/src/dropbox/build_tools/svcctl/processor.go makes them and `Start` follows them.
use mathlib.Core.Option
use dbx_build_tools.Base.{
  ℕ, zero, suc, ◌<◌, ◌≡◌, sym, subst, ◌∙◌, ◌⊎◌, inl, inr, Bool, none, some, List, [], ◌∷◌, ◌++◌,
  Memᴰ, Memᴰ-cons, not-Memᴰ-nil, Bool-cases, Option-cases, List-cases, Str, str_eq, str_eq_iff,
  str_eq_refl, lookup, lookup-insert, lookup-domain, length, get_elem?, get_elem?-snoc_old,
  get_elem?-snoc_cases, get_elem?-snoc_new, lt-length_of_get, get-of_lt, ◌==◌, arith,
}
use dbx_build_tools.Base.Result.{ok, >>=-ok_inv, Result-cases}
use dbx_build_tools.Topological.Unique.{IsUniqueDeps}
use dbx_build_tools.Topological.Runner.{Pool, new_pool, Step, Runs}
use dbx_build_tools.Topological.Runner.Finish.{Returned, run_progress}
use dbx_build_tools.Svcctl.Proto.{ServiceProto}
use dbx_build_tools.Svcctl.Service.{ServiceEnv, ServiceDef, CreateError, service_def, resolve}
use dbx_build_tools.Svcctl.Processor.{
  Processor, new_processor, register, create, create_pass, Reply, empty, failed, crashed, blocked,
  out_of_fuel, batch_loop, create_batch, dependents_of, service_tasks, dependents_of,
}
use dbx_build_tools.Svcctl.Processor.Create.{create-Created}

-- Every service is at the address of its name, is the only one of its name, and points to services
-- that were made before it.
pub record IsWellFormed (p : Processor) : Type 0 where
  pub at_home :
      (k : Str) (a : ℕ)
      → lookup k p.services ≡ some a
      → (d : ServiceDef) × (get_elem? p.heap a ≡ some d) × (d.name ≡ k)
  pub known :
      (a : ℕ) (d : ServiceDef) → get_elem? p.heap a ≡ some d → lookup d.name p.services ≡ some a
  pub older : (a b : ℕ) (d : ServiceDef) → get_elem? p.heap a ≡ some d → Memᴰ b d.dependents → b < a

resolve-addrs :
    (services : List (Str × ℕ)) (deps : List Str) (addrs : List ℕ)
    → resolve services deps ≡ ok addrs
    → (b : ℕ) → Memᴰ b addrs
    → (k : Str) × (lookup k services ≡ some b)
unfolding resolve
resolve-addrs services [] addrs h b m =
    absurd (not-Memᴰ-nil (subst (Memᴰ b) (sym (ground arith)) m))
resolve-addrs services (x ∷ deps) addrs h b m = elim (Option-cases (lookup x services)) [
  | inl e ↦ absurd (ground arith)
  | inr (a, e) ↦
      let (rest, r, f) =
        >>=-ok_inv (resolve services deps) (λ l. ok (a ∷ l)) (rw (e, resolve) at h) in
      elim ((Memᴰ-cons b a rest).0 (subst (Memᴰ b) (ground (arith, f)) m)) [
        | inl same ↦ (x, rw same e)
        | inr n ↦ resolve-addrs services deps rest r b n
      ]
]

new_processor-IsWellFormed : (verbose : Bool) → IsWellFormed (new_processor verbose)
unfolding new_processor lookup
new_processor-IsWellFormed verbose = record {
  at_home = λ k a h. absurd (cc);
  known = λ a d h. absurd (cc);
  older = λ a b d h m. absurd (cc);
}

register-IsWellFormed :
    (p : Processor) (d : ServiceDef)
    → lookup d.name p.services ≡ none
    → ((b : ℕ) → Memᴰ b d.dependents → b < length p.heap)
    → IsWellFormed p
    → IsWellFormed (register d.name d p)
unfolding register
register-IsWellFormed p d new below w = record {
  at_home = λ k a h. elim (Bool-cases (str_eq k d.name)) [
    | inl e ↦
        let same : length p.heap ≡ a =
          ground (arith, h, lookup-insert d.name k (length p.heap) p.services) in
        (
          d,
          subst (λ n. get_elem? (p.heap ++ d ∷ []) n ≡ some d) same (get_elem?-snoc_new p.heap d),
          sym ((str_eq_iff k d.name).0 e),
        )
    | inr e ↦
        let (x, g, n) =
          w.at_home k a (ground (arith, h, lookup-insert d.name k (length p.heap) p.services)) in
        (x, get_elem?-snoc_old p.heap d a (lt-length_of_get p.heap a g) ∙ g, n)
  ];
  known = λ a x h. elim (get_elem?-snoc_cases p.heap d a h) [
    | inl old ↦ ground (
      arith,
      w.known a x old,
      new,
      lookup-insert d.name x.name (length p.heap) p.services,
      str_eq_iff x.name d.name,
    )
    | inr (e, f) ↦ rw f (
        ground
          (arith, e, lookup-insert d.name d.name (length p.heap) p.services, str_eq_refl d.name))
  ];
  older = λ a b x h m. elim (get_elem?-snoc_cases p.heap d a h) [
    | inl old ↦ w.older a b x old m
    | inr (e, f) ↦ rw e (below b (subst (λ (y : ServiceDef). Memᴰ b y.dependents) f m))
  ];
}

module _ (env : ServiceEnv) where
  create-IsWellFormed :
      (svc : ServiceProto) (p p' : Processor)
      → create env svc p ≡ ok p'
      → IsWellFormed p
      → IsWellFormed p'
  unfolding service_def
  create-IsWellFormed svc p p' e w =
      let c = create-Created env svc p p' e in
      rw c.registered (
        register-IsWellFormed p _ ((lookup-domain svc.service_name p.services).1 c.creatable.fresh)
          (λ b m.
            let (k, h) = resolve-addrs p.services svc.dependencies c.addrs c.resolved b m in
            let (d, g, n) = w.at_home k b h in lt-length_of_get p.heap b g)
          w)

  create_pass-IsWellFormed :
      (to_add : List ServiceProto) (p p' : Processor) (next : List ServiceProto)
      (errors : List CreateError)
      → create_pass env to_add p ≡ ok (p', next, errors)
      → IsWellFormed p
      → IsWellFormed p'
  unfolding create_pass
  create_pass-IsWellFormed [] p p' next errors e w = subst IsWellFormed (ground arith) w
  create_pass-IsWellFormed (svc ∷ to_add) p p' next errors e w =
      elim (Result-cases (create env svc p)) [
        | inl (q, h) ↦
            create_pass-IsWellFormed to_add q p' next errors (rw (h, create_pass) at e)
              (create-IsWellFormed svc p q h w)
        | inr (inl (x, h)) ↦
            let ((q, n, xs), r, f) =
              >>=-ok_inv (create_pass env to_add p) _ (rw (h, create_pass) at e) in
            subst IsWellFormed (ground (arith, f)) (create_pass-IsWellFormed to_add p q n xs r w)
        | inr (inr h) ↦ absurd (ground arith)
      ]

  -- What a reply leaves of the processor.
  abbrev pub Leaves : Reply → (Processor → Type 0) → Type 0
  Leaves (empty p) P = P p
  Leaves (failed p errors) P = P p
  Leaves crashed P = Unit
  Leaves blocked P = Unit
  Leaves out_of_fuel P = Unit

  batch_loop-IsWellFormed :
      (fuel : ℕ) (to_add : List ServiceProto) (prev_len : ℕ) (p : Processor)
      → IsWellFormed p
      → Leaves (batch_loop env fuel to_add prev_len p) IsWellFormed
  unfolding batch_loop
  batch_loop-IsWellFormed zero to_add prev_len p w = tt
  batch_loop-IsWellFormed (suc fuel) to_add prev_len p w =
      elim (Result-cases (create_pass env to_add p)) [
        | inl ((q, n, xs), h) ↦
            let v = create_pass-IsWellFormed to_add p q n xs h w in
            elim (List-cases n) [
              | inl e ↦ rw (h, batch_loop) (rw e v)
              | inr (s, rest, e) ↦ elim (Bool-cases (length (s ∷ rest) == prev_len)) [
                | inl same ↦ rw (h, batch_loop) (rw e (rw same v))
                | inr less ↦
                    rw (h, batch_loop)
                      (rw e
                        (rw less (batch_loop-IsWellFormed fuel (s ∷ rest) (length (s ∷ rest)) q v)))
              ]
            ]
        | inr (inl (x, h)) ↦ rw (h, batch_loop) tt
        | inr (inr h) ↦ rw (h, batch_loop) tt
      ]

  -- On a processor whose services all have names, stand at the addresses of their names and point
  -- only to services that were made before them, `CreateBatch` leaves such services, whether it adds
  -- all of the request or fails.
  pub create_batch-IsWellFormed :
      (request : List ServiceProto) (p : Processor)
      → IsWellFormed p
      → Leaves (create_batch env request p) IsWellFormed
  unfolding create_batch
  create_batch-IsWellFormed request p w = elim (Bool-cases (p.readers == 0)) [
    | inl e ↦ rw e (batch_loop-IsWellFormed (suc (length request)) request (length request) p w)
    | inr e ↦ rw e tt
  ]

-- The order in which the services of the names were made.
abbrev pub made_at : Processor → Str → ℕ
made_at p k = Option.get_or (lookup k p.services) 0

service_tasks-falls :
    (p : Processor) (t d : ℕ)
    → IsWellFormed p
    → Memᴰ d ((service_tasks p).dependents t)
    → made_at p ((service_tasks p).key d) < made_at p ((service_tasks p).key t)
unfolding service_tasks
service_tasks-falls p t d w m = elim (Option-cases (get_elem? p.heap t)) [
  | inl e ↦ absurd (not-Memᴰ-nil (subst (λ o. Memᴰ d (dependents_of o)) e m))
  | inr (x, e) ↦
      let below = w.older t d x e (subst (λ o. Memᴰ d (dependents_of o)) e m) in
      let (y, g) = get-of_lt p.heap d (omega (arith, lt-length_of_get p.heap t e)) in
      ground (arith, w.known t x e, w.known d y g, below)
]

-- The services of a well-formed processor can be started: whichever of them the request names, the
-- pool of the starter never gets stuck, that is, in every state that it reaches some worker can make
-- a step, or all of them have returned.
pub start_progress :
    {E : Type 0} (p : Processor) (svcs deps : List ℕ) (cpus : ℕ)
    → IsWellFormed p
    → (u : IsUniqueDeps (service_tasks p) svcs deps) → {q : Pool ℕ E}
    → Runs (service_tasks p) (new_pool cpus deps) q
    → ((q' : Pool ℕ E) × Step (service_tasks p) q q') ⊎ Returned (service_tasks p) deps u.distinct q
start_progress p svcs deps cpus w u r =
    run_progress (service_tasks p) deps u.distinct (made_at p)
      (record { closed = u.closed; falls = λ t d m n. service_tasks-falls p t d w n }) cpus r
