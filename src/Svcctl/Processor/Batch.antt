-- ===== src/Svcctl/Processor/Batch.antt =====
-- The loop of `CreateBatch` in go/src/dropbox/build_tools/svcctl/processor.go.
use dbx_build_tools.Base.{
  ℕ, zero, suc, ◌<◌, ◌==◌, ==_iff, ◌≡◌, refl, ◌≢◌, ◌↔◌, ◌⊎◌, inl, inr, Bool, true, false, List, [],
  ◌∷◌, Memᴰ, Memᴰ-cons, not-Memᴰ-nil, Bool-cases, Str, str_eq, str_eq_iff, has, Distinct, length,
  arith,
}
use dbx_build_tools.Base.Result.{ok}
use dbx_build_tools.Svcctl.Proto.{ServiceProto}
use dbx_build_tools.Svcctl.Service.{ServiceEnv, CreateError}
use dbx_build_tools.Svcctl.Processor.{
  Processor, create_pass, Reply, empty, failed, batch_loop, create_batch,
}
use dbx_build_tools.Svcctl.Processor.Create.{names, IsSound, Creatable}
use dbx_build_tools.Svcctl.Processor.Pass.{declared_names, Pass, Pending, create_pass-Pass}

module _ (env : ServiceEnv) where
  -- Each service can be created once those before it are.
  unfoldable pub Orderly : List Str → List ServiceProto → Type 0
  Orderly known [] = Unit
  Orderly known (svc ∷ svcs) = Creatable env known svc × Orderly (svc.service_name ∷ known) svcs

  -- How a batch ends that neither panics nor runs out of fuel.
  pub data Ended (request : List ServiceProto) (p : Processor) (reply : Reply) : Type 0 where
    all_added :
        (p' : Processor)
        → reply ≡ empty p'
        → ((k : Str) → has k (names p) ≡ true → has k (names p') ≡ true)
        → ((svc : ServiceProto) → Memᴰ svc request → has svc.service_name (names p') ≡ true)
        → Ended request p reply
    some_left :
        (p' : Processor) (errors : List CreateError) (left : List ServiceProto)
        → reply ≡ failed p' errors
        → left ≢ []
        → Pending env left p'
        → ((k : Str) → has k (names p) ≡ true → has k (names p') ≡ true)
        → ((svc : ServiceProto) → Memᴰ svc left → Memᴰ svc request)
        → ((svc : ServiceProto)
            → Memᴰ svc request
            → Memᴰ svc left ⊎ (has svc.service_name (names p') ≡ true))
        → ((svc : ServiceProto) → Memᴰ svc left → ¬ Creatable env (names p') svc)
        → Ended request p reply

  Pending-next :
      (to_add : List ServiceProto) (p p' : Processor) (next : List ServiceProto)
      → Pending env to_add p
      → Pass env to_add p p' next
      → Pending env next p'
  Pending-next to_add p p' next q h = record {
    unknown = h.fresh;
    apart = λ k. omega (arith, h.fewer k, q.apart k);
    sound = λ x m. q.sound x (h.kept x m);
  }

  -- A batch that starts from a pass.
  Pass-Ended :
      (to_add next : List ServiceProto) (p p' : Processor) (reply : Reply)
      → Pass env to_add p p' next
      → Ended next p' reply
      → Ended to_add p reply
  Pass-Ended to_add next p p' reply h (all_added q e grows all) =
      all_added q e (λ k m. grows k (h.grows k m))
        (λ svc m. elim (h.added svc m) [
          | inl n ↦ all svc n
          | inr known ↦ grows svc.service_name known
        ])
  Pass-Ended to_add next p p' reply h
        (some_left q errors left e ne pending grows inside split none_fits) =
      some_left q errors left e ne pending (λ k m. grows k (h.grows k m))
        (λ svc m. h.kept svc (inside svc m))
        (λ svc m. elim (h.added svc m) [
          | inl n ↦ split svc n
          | inr known ↦ inr (grows svc.service_name known)
        ])
        none_fits

  go_round :
      (fuel : ℕ) (to_add : List ServiceProto) (p p' : Processor) (next : List ServiceProto)
      (errors : List CreateError)
      → create_pass env to_add p ≡ ok (p', next, errors)
      → Pending env to_add p
      → Pass env to_add p p' next
      → length to_add < suc fuel
      → (length next < fuel → Ended next p' (batch_loop env fuel next (length next) p'))
      → Ended to_add p (batch_loop env (suc fuel) to_add (length to_add) p)
  unfolding batch_loop
  go_round fuel to_add p p' [] errors r q h l again =
      all_added p' (rw (r, batch_loop)) h.grows
        (λ svc m. elim (h.added svc m) [ inl n ↦ absurd (not-Memᴰ-nil n) | inr known ↦ known ])
  go_round fuel to_add p p' (svc ∷ rest) errors r q h l again =
      elim (Bool-cases (length (svc ∷ rest) == length to_add)) [
        | inl same ↦
            let (unchanged, none_fits) = h.stuck ((==_iff _ _).0 same) in
            some_left p' errors (svc ∷ rest) (rw (r, batch_loop) (rw same)) (λ e. cc)
              (Pending-next to_add p p' (svc ∷ rest) q h) h.grows h.kept h.added
              (λ x m. rw unchanged (none_fits x (h.kept x m)))
        | inr less ↦
            rw (r, batch_loop)
              (rw less
                (Pass-Ended to_add (svc ∷ rest) p p' _ h (again (ground (arith, h.shorter)))))
      ]

  batch_loop-Ended :
      (fuel : ℕ) (to_add : List ServiceProto) (p : Processor)
      → length to_add < fuel
      → Pending env to_add p
      → Ended to_add p (batch_loop env fuel to_add (length to_add) p)
  batch_loop-Ended zero to_add p l q = absurd (omega arith)
  batch_loop-Ended (suc fuel) to_add p l q =
      let (p', next, errors, r, h) = create_pass-Pass env to_add p q in
      go_round fuel to_add p p' next errors r q h l
        (λ less. batch_loop-Ended fuel next p' less (Pending-next to_add p p' next q h))

  -- In a dependency order everything can be added, so that nothing is left at the end.
  order_added :
      (known : List Str) (order left : List ServiceProto) (p' : Processor)
      → Orderly known order
      → ((k : Str) → has k known ≡ true → has k (names p') ≡ true)
      → Pending env left p'
      → ((svc : ServiceProto) → Memᴰ svc left → ¬ Creatable env (names p') svc)
      → ((svc : ServiceProto)
          → Memᴰ svc order
          → Memᴰ svc left ⊎ (has svc.service_name (names p') ≡ true))
      → (svc : ServiceProto) → Memᴰ svc order
      → has svc.service_name (names p') ≡ true
  unfolding Orderly has
  order_added known [] left p' o known_names pending none_fits split svc m = absurd (not-Memᴰ-nil m)
  order_added known (x ∷ order) left p' (fits, o) known_names pending none_fits split svc m =
      elim ((Memᴰ-cons svc x order).0 m) [
        | inl e ↦ rw e first_added
        | inr n ↦
            order_added (x.service_name ∷ known) order left p' o
              (λ k h. elim (Bool-cases (str_eq k x.service_name)) [
                | inl same ↦ rw ((str_eq_iff k x.service_name).0 same) first_added
                | inr other ↦ known_names k (ground arith)
              ])
              pending none_fits (λ y w. split y (Memᴰ.tail w)) svc n
      ]
    where
      first_added : has x.service_name (names p') ≡ true
      first_added = elim (split x (Memᴰ.head refl)) [
        | inl n ↦ absurd (
            none_fits x n (record {
              fresh = pending.unknown x n;
              declared = λ d w. known_names d (fits.declared d w);
              sound = fits.sound;
            }))
        | inr already ↦ already
      ]

  pub Orderly-Pending :
      (known : List Str) (order : List ServiceProto)
      → Orderly known order
      → (svc : ServiceProto) → Memᴰ svc order
      → (has svc.service_name known ≡ false) × IsSound env svc
  unfolding Orderly has
  Orderly-Pending known [] o svc m = absurd (not-Memᴰ-nil m)
  Orderly-Pending known (x ∷ order) (fits, o) svc m = elim ((Memᴰ-cons svc x order).0 m) [
    | inl e ↦ rw e (fits.fresh, fits.sound)
    | inr n ↦
        let (f, s) = Orderly-Pending (x.service_name ∷ known) order o svc n in
        (ground (arith, f), s)
  ]

  nothing_left :
      (left : List ServiceProto) (known : List Str)
      → ((svc : ServiceProto) → Memᴰ svc left → has svc.service_name known ≡ false)
      → ((svc : ServiceProto) → Memᴰ svc left → has svc.service_name known ≡ true)
      → left ≢ []
      → ⊥
  nothing_left [] known absent present ne = ne refl
  nothing_left (x ∷ left) known absent present ne =
      clash (absent x (Memᴰ.head refl)) (present x (Memᴰ.head refl))
    where
      clash : {b : Bool} → b ≡ false → b ≡ true → ⊥
      clash y n = cc

  -- If no read lock of the processor is held, and the services of a request, which have different
  -- names, can be created in some order, then `CreateBatch` creates all of them, in whatever order they are given, keeps the services that
  -- there were, and returns no error.
  pub create_batch_complete :
      (request order : List ServiceProto) (p : Processor)
      → p.readers ≡ 0
      → Distinct (declared_names request)
      → ((svc : ServiceProto) → Memᴰ svc request ↔ Memᴰ svc order)
      → Orderly (names p) order
      → (p' : Processor) × (create_batch env request p ≡ empty p')
        × ((k : Str) → has k (names p) ≡ true → has k (names p') ≡ true)
        × ((svc : ServiceProto) → Memᴰ svc request → has svc.service_name (names p') ≡ true)
  unfolding create_batch
  create_batch_complete request order p free apart same o =
      elim (batch_loop-Ended (suc (length request)) request p (omega arith) pending) [
        | all_added p' e grows all ↦ (p', ground (arith, free, e), grows, all)
        | some_left p' errors left e ne rest grows inside split none_fits ↦ absurd (
            nothing_left left (names p') rest.unknown
              (λ svc m.
                order_added (names p) order left p' o grows rest none_fits
                  (λ y w. split y ((same y).1 w)) svc ((same svc).0 (inside svc m)))
              ne)
      ]
    where
      pending : Pending env request p
      pending = record {
        unknown = λ svc m. (Orderly-Pending (names p) order o svc ((same svc).0 m)).0;
        apart = apart;
        sound = λ svc m. (Orderly-Pending (names p) order o svc ((same svc).0 m)).1;
      }
