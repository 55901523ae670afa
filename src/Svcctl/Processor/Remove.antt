-- ===== src/Svcctl/Processor/Remove.antt =====
-- `RemoveBatch`, `Stop` and `StopAll` of go/src/dropbox/build_tools/svcctl/processor.go.
use dbx_build_tools.Base.{
  ℕ, ◌≡◌, ◌≢◌, refl, subst, ap, ◌⊎◌, inl, inr, true, false, Option, none, some, List, [], ◌∷◌, ◌++◌,
  Memᴰ, Str, has, lookup, delete, lookup-delete, map, get_elem?, ◌==◌, ==_iff, if◌then◌else◌, arith,
  Option-cases, Bool-cases,
}
use dbx_build_tools.Base.Result.{Result, ok, err, panic, Result-cases}
use dbx_build_tools.Svcctl.Service.{ServiceDef}
use dbx_build_tools.Svcctl.Processor.{Processor, service_tasks}
use dbx_build_tools.Svcctl.Processor.Start.{IsWellFormed}

pub data RemoveError (E : Type 0) : Type 0 where
  unrecognized : Str → RemoveError E
  not_stopped : Str → E → RemoveError E

-- How `RemoveBatch` ends: a panic of `Stop` gives the lock back too.
pub data RemoveReply (E : Type 0) : Type 0 where
  removed : Processor → RemoveReply E
  refused : Processor → RemoveError E → RemoveReply E
  crashed : Processor → RemoveReply E
  waits : RemoveReply E

-- `stop` is `Stop` of the service at an address.
module _ {E A : Type 0} (stop : ℕ → Result E A) where
  unfoldable pub remove_loop : List Str → Processor → RemoveReply E
  unfolding lookup delete
  remove_loop [] p = removed p
  remove_loop (service_name ∷ names) p = elim (lookup service_name p.services) [
    | none ↦ refused p (unrecognized service_name)
    | some service ↦ elim (stop service) [
      | panic ↦ crashed p
      | err e ↦ refused p (not_stopped service_name e)
      | ok _ ↦ remove_loop names (record p { services = delete service_name p.services })
    ]
  ]

  -- It waits for the write lock while a read lock is held.
  unfoldable pub remove_batch : List Str → Processor → RemoveReply E
  unfolding remove_loop
  remove_batch names p = if p.readers == 0 then remove_loop names p else waits

  -- `Stop`: `none` is a name that is not found.
  unfoldable pub stop_service : Str → Processor → Option (Result E A)
  unfolding lookup
  stop_service service_name p = elim (lookup service_name p.services) [
    | none ↦ none
    | some svc ↦ some (stop svc)
  ]

-- The tasks of `newTopologicalStopper` in `StopAll`, in the order of the map.
unfoldable pub stop_all_tasks : Processor → List ℕ
stop_all_tasks p = map (λ e. e.1) p.services

-- The services of some names are gone, and nothing else changed.
pub record AreGone (names : List Str) (p p' : Processor) : Type 0 where
  pub services :
      (k : Str) → lookup k p'.services ≡ (if has k names then none else lookup k p.services)
  pub heap : p'.heap ≡ p.heap
  pub readers : p'.readers ≡ p.readers

module _ {E A : Type 0} (stop : ℕ → Result E A) where
  -- The services before the first name that fails are gone.
  abbrev pub AreGoneBefore : List Str → Processor → Processor → Type 0
  AreGoneBefore names p p' =
      (gone : List Str) × (name : Str) × (rest : List Str) × (names ≡ gone ++ name ∷ rest)
      × AreGone gone p p'
      × ((lookup name p'.services ≡ none)
          ⊎ ((a : ℕ) × (lookup name p'.services ≡ some a) × ((v : A) → stop a ≢ ok v)))

  abbrev pub EndsIn : List Str → Processor → RemoveReply E → Type 0
  EndsIn names p (removed p') = AreGone names p p'
  EndsIn names p (refused p' e) = AreGoneBefore names p p'
  EndsIn names p (crashed p') = AreGoneBefore names p p'
  EndsIn names p waits = p.readers ≢ 0

  none-AreGone : (p : Processor) → AreGone [] p p
  none-AreGone p = record { services = λ k. unfold has in refl; heap = refl; readers = refl }

  delete-AreGone :
      (name : Str) (names : List Str) (p p' : Processor)
      → AreGone names (record p { services = delete name p.services }) p'
      → AreGone (name ∷ names) p p'
  delete-AreGone name names p p' gone = record {
    services = λ k. unfold has in ground (arith, gone.services k, lookup-delete name k p.services);
    heap = gone.heap;
    readers = gone.readers;
  }

  delete-EndsIn :
      (name : Str) (names : List Str) (p : Processor) (reply : RemoveReply E)
      → EndsIn names (record p { services = delete name p.services }) reply
      → EndsIn (name ∷ names) p reply
  delete-EndsIn name names p (removed p') gone = delete-AreGone name names p p' gone
  delete-EndsIn name names p (refused p' e) (gone, x, rest, split, are_gone, why) = (
    name ∷ gone,
    x,
    rest,
    ap (λ (l : List Str). name ∷ l) split,
    delete-AreGone name gone p p' are_gone,
    why,
  )
  delete-EndsIn name names p (crashed p') (gone, x, rest, split, are_gone, why) = (
    name ∷ gone,
    x,
    rest,
    ap (λ (l : List Str). name ∷ l) split,
    delete-AreGone name gone p p' are_gone,
    why,
  )
  delete-EndsIn name names p waits h = h

  remove_loop-EndsIn :
      (names : List Str) (p : Processor) → EndsIn names p (remove_loop stop names p)
  unfolding remove_loop
  remove_loop-EndsIn [] p = none-AreGone p
  remove_loop-EndsIn (name ∷ names) p = elim (Option-cases (lookup name p.services)) [
    | inl e ↦ rw (remove_loop, e) ([], name, names, refl, none-AreGone p, inl e)
    | inr (a, e) ↦ elim (Result-cases (stop a)) [
      | inl (v, f) ↦
          rw (remove_loop, e, f)
            (delete-EndsIn name names p (remove_loop stop names _)
              (remove_loop-EndsIn names (record p { services = delete name p.services })))
      | inr (inl (problem, f)) ↦
          rw (remove_loop, e, f)
            ([], name, names, refl, none-AreGone p, inr (a, e, λ v h. cc (f, h)))
      | inr (inr f) ↦
          rw (remove_loop, e, f)
            ([], name, names, refl, none-AreGone p, inr (a, e, λ v h. cc (f, h)))
    ]
  ]

  -- `RemoveBatch` either removes the services of its names and no other; or it ends, in an error or in
  -- a panic, at the first name that no service has or whose service does not stop, with the services
  -- of the names before it removed and no other; or it waits, while a read lock is held.
  remove_batch-EndsIn :
      (names : List Str) (p : Processor) → EndsIn names p (remove_batch stop names p)
  unfolding remove_batch
  remove_batch-EndsIn names p = elim (Bool-cases (p.readers == 0)) [
    | inl e ↦ rw (e) (remove_loop-EndsIn names p)
    | inr e ↦ rw (e) (λ zero_readers. ground (arith, e, zero_readers, ==_iff p.readers 0))
  ]

  -- After a `RemoveBatch` that succeeds on a well-formed processor, a service that it kept and that
  -- depends on a service that it removed is found at its address, and the removed service, which no
  -- name leads to any more, is still among the dependencies of its task.
  pub remove_batch-dangling :
      (names : List Str) (p p' : Processor) (a b : ℕ) (d e : ServiceDef)
      → remove_batch stop names p ≡ removed p'
      → IsWellFormed p
      → get_elem? p.heap a ≡ some d
      → get_elem? p.heap b ≡ some e
      → Memᴰ b d.dependents
      → has d.name names ≡ false
      → has e.name names ≡ true
      → (lookup d.name p'.services ≡ some a)
        × (lookup e.name p'.services ≡ none)
        × Memᴰ b ((service_tasks p').dependents a)
  unfolding service_tasks
  remove_batch-dangling names p p' a b d e run w at_a at_b depends kept named =
      let gone : AreGone names p p' = subst (EndsIn names p) run (remove_batch-EndsIn names p) in
      (
        ground (arith, gone.services d.name, kept, w.known a d at_a),
        ground (arith, gone.services e.name, named),
        rw (gone.heap, at_a) depends,
      )
