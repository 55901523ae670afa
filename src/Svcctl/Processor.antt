-- ===== src/Svcctl/Processor.antt =====
-- `SvcCtlProcessor` of go/src/dropbox/build_tools/svcctl/processor.go: the batches that create
-- services, and the requests that start them.

pub mod Create
pub mod Pass
pub mod Batch
pub mod Start
pub mod Locks
pub mod Status
pub mod Metrics
pub mod Remove
mod Tests
use dbx_build_tools.Base.{
  ℕ, zero, suc, ◌+◌, Bool, true, false, ◌||◌, Option, none, some, List, [], ◌∷◌, ◌++◌, map, Str,
  lookup, insert, length, get_elem?, ◌==◌, if◌then◌else◌,
}
use dbx_build_tools.Base.Result.{Result, ok, err, panic, ◌>>=◌}
use dbx_build_tools.Topological.Task.{TaskOps}
use dbx_build_tools.Svcctl.Proto.{ServiceProto}
use dbx_build_tools.Svcctl.Service.{
  ServiceEnv, ServiceDef, CreateError, duplicate_name, new_service,
}

-- `heap` holds every `serviceDef` that was made, at its address; `services` the addresses by name.
-- Of the read-write lock it keeps the number of read locks that are held between two requests.
pub record Processor : Type 0 where
  pub heap : List ServiceDef
  pub services : List (Str × ℕ)
  pub readers : ℕ
  pub verbose : Bool

unfoldable pub new_processor : Bool → Processor
new_processor verbose = record { heap = []; services = []; readers = 0; verbose = verbose }

-- `s.services[name] = svcDef`, with `svcDef` at the next address.
unfoldable pub register : Str → ServiceDef → Processor → Processor
register name svc_def p = record p {
  heap = p.heap ++ svc_def ∷ [];
  services = insert name (length p.heap) p.services;
}

-- How a request ends: with a reply, with the errors of an error, with a panic, or not at all.
pub data Reply : Type 0 where
  empty : Processor → Reply
  failed : Processor → List CreateError → Reply
  crashed : Reply
  blocked : Reply
  out_of_fuel : Reply

module _ (env : ServiceEnv) where
  unfoldable pub create : ServiceProto → Processor → Result CreateError Processor
  create svc p = elim (lookup svc.service_name p.services) [
    | some _ ↦ err duplicate_name
    | none ↦ do
      svc_def ← new_service env svc p.services (p.verbose || svc.verbose)
      ok (register svc.service_name svc_def p)
  ]

  -- One pass over `toAdd`: the processor, `toAddNext` and `createErrors`.
  unfoldable pub create_pass :
      List ServiceProto
      → Processor
      → Result CreateError (Processor × List ServiceProto × List CreateError)
  create_pass [] p = ok (p, [], [])
  create_pass (svc ∷ to_add) p = elim (create svc p) [
    | ok p' ↦ create_pass to_add p'
    | err e ↦ create_pass to_add p >>= λ (p', next, errors). ok (p', svc ∷ next, e ∷ errors)
    | panic ↦ panic
  ]

  -- `for true` in `CreateBatch`.
  unfoldable pub batch_loop : ℕ → List ServiceProto → ℕ → Processor → Reply
  batch_loop zero to_add prev_len p = out_of_fuel
  batch_loop (suc fuel) to_add prev_len p = elim (create_pass to_add p) [
    | ok (p', [], errors) ↦ empty p'
    | ok (p', svc ∷ next, errors) ↦
        let again = batch_loop fuel (svc ∷ next) (length (svc ∷ next)) p' in
        if length (svc ∷ next) == prev_len then failed p' errors else again
    | err _ ↦ crashed
    | panic ↦ crashed
  ]

  -- `CreateBatch`: it waits for the write lock while a read lock is held.
  unfoldable pub create_batch : List ServiceProto → Processor → Reply
  create_batch services p =
      if p.readers == 0
      then batch_loop (suc (length services)) services (length services) p
      else blocked

pub data StartError : Type 0 where
  name_not_found : Str → StartError

-- The loop of `Start` over the names, under the read lock.
unfoldable pub find_all : List (Str × ℕ) → List Str → Result StartError (List ℕ)
find_all services [] = ok []
find_all services (name ∷ names) = elim (lookup name services) [
  | none ↦ err (name_not_found name)
  | some svc ↦ find_all services names >>= λ svcs. ok (svc ∷ svcs)
]

-- The first half of `Start`: the services of the names. The return for a name that is not found
-- leaves the read lock held.
unfoldable pub start_lookup : List Str → Processor → Processor × Result StartError (List ℕ)
unfolding find_all
start_lookup names p =
    let locked = record p { readers = p.readers + 1 } in
    elim (find_all p.services names) [
      | ok svcs ↦ (p, ok svcs)
      | err e ↦ (locked, err e)
      | panic ↦ (locked, panic)
    ]

-- `Key` and `Dependents` of a service that is read through its pointer.
abbrev pub key_of : Option ServiceDef → Str
key_of none = []
key_of (some d) = d.name

abbrev pub dependents_of : Option ServiceDef → List ℕ
dependents_of none = []
dependents_of (some d) = d.dependents

-- `startTask` and `stopTask` of topological_starter.go and topological_stopper.go: a task is a
-- service, its key the name, its dependencies the services that it points to.
unfoldable pub service_tasks : Processor → TaskOps ℕ
service_tasks p = record {
  key = λ svc. key_of (get_elem? p.heap svc);
  dependents = λ svc. dependents_of (get_elem? p.heap svc);
}
