-- ===== src/Svcctl/Processor/Locks.antt =====
-- The read-write lock of `SvcCtlProcessor` across `Start` and `CreateBatch`
-- (go/src/dropbox/build_tools/svcctl/processor.go).

use dbx_build_tools.Base.{
  ℕ, ◌+◌, ◌≡◌, refl, ◌↔◌, inl, inr, Bool, true, false, List, [], ◌∷◌, Memᴰ, Memᴰ-cons, not-Memᴰ-nil,
  Option-cases, Str, has, lookup, domain, lookup-domain, ==_iff, arith,
}
use dbx_build_tools.Base.Result.{ok, err}
use dbx_build_tools.Svcctl.Proto.{ServiceProto}
use dbx_build_tools.Svcctl.Service.{ServiceEnv}
use dbx_build_tools.Svcctl.Processor.{
  Processor, name_not_found, find_all, start_lookup, blocked, create_batch,
}
use dbx_build_tools.Svcctl.Processor.Create.{names}

-- How the loop over the names ends.
data Found (services : List (Str × ℕ)) (wanted : List Str) : Type 0 where
  every :
      (svcs : List ℕ)
      → find_all services wanted ≡ ok svcs
      → ((k : Str) → Memᴰ k wanted → has k (domain services) ≡ true)
      → Found services wanted
  missing :
      (k : Str)
      → find_all services wanted ≡ err (name_not_found k)
      → Memᴰ k wanted
      → has k (domain services) ≡ false
      → Found services wanted

find_all-Found : (services : List (Str × ℕ)) (wanted : List Str) → Found services wanted
unfolding find_all
find_all-Found services [] = every [] refl (λ k m. absurd (not-Memᴰ-nil m))
find_all-Found services (x ∷ wanted) = elim (Option-cases (lookup x services)) [
  | inl e ↦ missing x (rw (e, find_all) refl) (Memᴰ.head refl) ((lookup-domain x services).0 e)
  | inr (a, e) ↦ elim (find_all-Found services wanted) [
    | every svcs r all ↦ every (a ∷ svcs) (rw (e, find_all) (rw r refl)) (λ k m.
        elim ((Memᴰ-cons k x wanted).0 m) [
          | inl same ↦ ground (arith, same, e, lookup-domain x services)
          | inr n ↦ all k n
        ])
    | missing k r m absent ↦ missing k (rw (e, find_all) (rw r refl)) (Memᴰ.tail m) absent
  ]
]

-- `Start` gives its read lock back exactly if every name of the request is the name of a service.
start_lookup_lock :
    (wanted : List Str) (p : Processor)
    → ((start_lookup wanted p).0.readers ≡ p.readers)
      ↔ ((k : Str) → Memᴰ k wanted → has k (names p) ≡ true)
unfolding start_lookup
start_lookup_lock wanted p = elim (find_all-Found p.services wanted) [
  | every svcs r all ↦ (λ _. all, λ _. rw (r, start_lookup) refl)
  | missing k r m absent ↦ (
    λ h. absurd (omega (arith, rw (r, start_lookup) at h)),
    λ all. absurd (clash (all k m) absent),
  )
]
  where
    clash : {b : Bool} → b ≡ true → b ≡ false → ⊥
    clash x y = cc

-- After a `Start` with a name that no service has, every `CreateBatch` waits for ever.
pub start_lookup_blocks :
    (env : ServiceEnv) (wanted : List Str) (p : Processor) (k : Str) (request : List ServiceProto)
    → Memᴰ k wanted
    → has k (names p) ≡ false
    → create_batch env request (start_lookup wanted p).0 ≡ blocked
unfolding start_lookup create_batch
start_lookup_blocks env wanted p k request m absent = elim (find_all-Found p.services wanted) [
  | every svcs r all ↦ absurd (clash (all k m) absent)
  | missing x r n a ↦ rw (r, start_lookup) (ground (arith, ==_iff (p.readers + 1) 0))
]
  where
    clash : {b : Bool} → b ≡ true → b ≡ false → ⊥
    clash x y = cc
