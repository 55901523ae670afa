-- ===== src/Svcctl/Tests.antt =====
-- A processor of go/src/dropbox/build_tools/svcctl/processor.go that creates and starts two
-- services, of which `web` depends on `db`.
use dbx_build_tools.Base.{
  ℕ, ◌≡◌, refl, sym, subst, ◌↔◌, ◌⊎◌, inl, inr, true, false, some, List, [], ◌∷◌, Memᴰ, Memᴰ-cons,
  not-Memᴰ-nil, All, All-mem, Str, codes, str_eq, str_eq_iff, has, has_prefix, contains_byte, split,
  join, occ, Distinct, lookup, insert, arith,
}
use dbx_build_tools.Runfiles.{has_relative, validate_repo_path, data_path}
use dbx_build_tools.Topological.Task.{visit, unique_loop, unique_deps}
use dbx_build_tools.Topological.Unique.{IsUniqueDeps, IsClosed, unfollowed, unique_deps_correct}
use dbx_build_tools.Topological.Runner.{Pool, new_pool, Step, here}
use dbx_build_tools.Topological.Runner.Finish.{Returned}
use dbx_build_tools.Svcctl.Fixtures.{env, service_of}
use dbx_build_tools.Svcctl.Proto.{ServiceProto, daemon}
use dbx_build_tools.Svcctl.Service.{resolve, sort_checks, full_paths, service_def, new_service}
use dbx_build_tools.Svcctl.Processor.{
  Processor, register, create, create_pass, empty, blocked, batch_loop, create_batch, start_lookup,
  service_tasks,
}
use dbx_build_tools.Svcctl.Processor.Create.{names, IsSound}
use dbx_build_tools.Svcctl.Processor.Pass.{declared_names}
use dbx_build_tools.Svcctl.Processor.Batch.{Orderly, create_batch_complete}
use dbx_build_tools.Svcctl.Processor.Start.{
  IsWellFormed, Leaves, create_batch-IsWellFormed, start_progress,
}
use dbx_build_tools.Svcctl.Processor.Locks.{start_lookup_blocks}
use dbx_build_tools.Base.{ℕ, if◌then◌else◌, ◌==◌, ◌⊎◌, none, delete, set, get_elem?}
use dbx_build_tools.Base.Result.{Result, ok, err}
use dbx_build_tools.Svcctl.Processor.Remove.{remove_batch, remove_batch-dangling}
use dbx_build_tools.Svcctl.Machine.{
  Machine, testing, sleeping, returned, new_machine, call_wait, set_state, test_loop, MachineStep,
  MachineRuns, sets, calls, tests, here, next,
}
use dbx_build_tools.Svcctl.Machine.Waits.{AreRight, MachineRuns-Awake}

abbrev db : ServiceProto
db = service_of daemon (codes "db") []

abbrev web : ServiceProto
web = service_of daemon (codes "web") (codes "db" ∷ [])

abbrev start : Processor
start = record { heap = []; services = []; readers = 0; verbose = false }

abbrev both : List ServiceProto
both = web ∷ db ∷ []

both-Distinct : Distinct (declared_names both)
unfolding occ
both-Distinct k = ground (arith, str_eq_iff k (codes "web"), str_eq_iff k (codes "db"))

swapped : (svc : ServiceProto) → Memᴰ svc both ↔ Memᴰ svc (db ∷ web ∷ [])
swapped svc = (
  λ m.
      All-mem (λ x. Memᴰ x (db ∷ web ∷ [])) both (Memᴰ.tail (Memᴰ.head refl), (Memᴰ.head refl, tt))
        svc m,
  λ m.
      All-mem (λ x. Memᴰ x both) (db ∷ web ∷ []) (Memᴰ.tail (Memᴰ.head refl), (Memᴰ.head refl, tt))
        svc m,
)

both-Orderly : Orderly env (names start) (db ∷ web ∷ [])
unfolding Orderly has str_eq sort_checks full_paths data_path validate_repo_path has_relative
    has_prefix contains_byte split join
both-Orderly = (
  record { fresh = refl; declared = λ d m. absurd (not-Memᴰ-nil m); sound = no_checks },
  (
    record {
      fresh = refl;
      declared = λ d m. elim ((Memᴰ-cons d (codes "db") []).0 m) [
        | inl e ↦ rw e refl
        | inr n ↦ absurd (not-Memᴰ-nil n)
      ];
      sound = no_checks;
    },
    tt,
  ),
)
  where
    no_checks : {name : Str} {deps : List Str} → IsSound env (service_of daemon name deps)
    no_checks = record {
      checks = ([], []);
      checks_eq = refl;
      files = codes "/r/v" ∷ [];
      files_eq = refl;
    }

create_batch_complete_example :
    (p' : Processor) × (create_batch env both start ≡ empty p')
    × ((k : Str) → has k (names start) ≡ true → has k (names p') ≡ true)
    × ((svc : ServiceProto) → Memᴰ svc both → has svc.service_name (names p') ≡ true)
create_batch_complete_example =
    create_batch_complete env both (db ∷ web ∷ []) start refl both-Distinct swapped both-Orderly

start-IsWellFormed : IsWellFormed start
unfolding lookup
start-IsWellFormed = record {
  at_home = λ k a h. absurd (cc);
  known = λ a d h. absurd (cc);
  older = λ a b d h m. absurd (cc);
}

create_batch-IsWellFormed_example : Leaves env (create_batch env both start) IsWellFormed
create_batch-IsWellFormed_example = create_batch-IsWellFormed env both start start-IsWellFormed

-- The processor after the batch.
abbrev after : Processor
after =
    register (codes "web") (service_def env web false (0 ∷ []) ([], []) (codes "/r/v" ∷ []))
      (register (codes "db") (service_def env db false [] ([], []) (codes "/r/v" ∷ [])) start)

create_batch_runs : create_batch env both start ≡ empty after
unfolding create_batch batch_loop create_pass create new_service resolve register sort_checks
    full_paths data_path validate_repo_path has_relative has_prefix contains_byte split join str_eq
    lookup insert
create_batch_runs = refl

after-IsWellFormed : IsWellFormed after
after-IsWellFormed =
    subst (λ r. Leaves env r IsWellFormed) create_batch_runs
      (create_batch-IsWellFormed env both start start-IsWellFormed)

after-IsUniqueDeps : IsUniqueDeps (service_tasks after) (1 ∷ []) (1 ∷ 0 ∷ [])
unfolding service_tasks register service_def unfollowed has str_eq
after-IsUniqueDeps =
    let (deps, e, u) : (deps : List ℕ) × (unique_deps (service_tasks after) 9 (1 ∷ []) ≡ some deps)
        × IsUniqueDeps (service_tasks after) (1 ∷ []) deps =
      unique_deps_correct (service_tasks after) (1 ∷ 0 ∷ []) closed 9 (1 ∷ [])
        (λ t m. All-mem (λ x. Memᴰ x (1 ∷ 0 ∷ [])) (1 ∷ []) (Memᴰ.head refl, tt) t m)
        (omega arith) in
    subst (IsUniqueDeps (service_tasks after) (1 ∷ [])) (cc (sym e, found)) u
  where
    closed : IsClosed (service_tasks after) (1 ∷ 0 ∷ [])
    closed t d m n =
        All-mem (λ x. Memᴰ x (1 ∷ 0 ∷ [])) ((service_tasks after).dependents t)
          (All-mem (λ y. All (λ x. Memᴰ x (1 ∷ 0 ∷ [])) ((service_tasks after).dependents y))
            (1 ∷ 0 ∷ []) ((Memᴰ.tail (Memᴰ.head refl), tt), (tt, tt)) t m)
          d n

    found : unique_deps (service_tasks after) 9 (1 ∷ []) ≡ some (1 ∷ 0 ∷ [])
    found = unfold unique_deps in unfold unique_loop in unfold visit in refl

start_progress_example :
    ((q : Pool ℕ ℕ) × Step (service_tasks after) (new_pool 1 (1 ∷ 0 ∷ [])) q)
    ⊎ Returned {E = ℕ}
        (service_tasks after)
        (1 ∷ 0 ∷ [])
        after-IsUniqueDeps.distinct
        (new_pool 1 (1 ∷ 0 ∷ []))
start_progress_example =
    start_progress after (1 ∷ []) (1 ∷ 0 ∷ []) 1 after-IsWellFormed after-IsUniqueDeps here

start_lookup_blocks_example :
    create_batch env both (start_lookup (codes "db" ∷ []) start).0 ≡ blocked
start_lookup_blocks_example =
    start_lookup_blocks env (codes "db" ∷ []) start (codes "db") both (Memᴰ.head refl)
      (unfold has in refl)

-- `Stop` of the service at 0 succeeds.
abbrev stop_first : ℕ → Result ℕ ℕ
stop_first a = if a == 0 then ok 0 else err 1

abbrev without_db : Processor
without_db = record after { services = delete (codes "db") after.services }

remove_batch-dangling_example :
    (lookup (codes "web") without_db.services ≡ some 1)
    × (lookup (codes "db") without_db.services ≡ none)
    × Memᴰ 0 ((service_tasks without_db).dependents 1)
unfolding service_def
remove_batch-dangling_example =
    remove_batch-dangling stop_first (codes "db" ∷ []) after without_db 1 0
      (service_def env web false (0 ∷ []) ([], []) (codes "/r/v" ∷ []))
      (service_def env db false [] ([], []) (codes "/r/v" ∷ []))
      (unfold remove_batch register service_def lookup insert str_eq in refl) after-IsWellFormed
      (unfold register in refl) (unfold register in refl) (unfold service_def in Memᴰ.head refl)
      (unfold service_def has str_eq in refl) (unfold service_def has str_eq in refl)

-- A call that sleeps while the state is 3, and is woken when it is set to 4.
abbrev woken : Machine ℕ
woken = record { state = 4; waiters = testing 3 ∷ [] }

woken_runs : MachineRuns (λ a b. a == b) (new_machine 3) woken
unfolding new_machine call_wait set_state test_loop
woken_runs = next (next (next here (calls 3)) (tests 0 3 refl)) (sets 4)

MachineRuns-Awake_example :
    AreRight (λ a b. a == b) woken
    × ((i n : ℕ)
        → (get_elem? woken.waiters i ≡ some (testing n))
          ⊎ (get_elem? woken.waiters i ≡ some (sleeping n))
        → (4 == n) ≡ false
        → MachineStep
            (λ a b. a == b)
            woken
            (record woken { waiters = set woken.waiters i (returned n 4) }))
MachineRuns-Awake_example = MachineRuns-Awake (λ a b. a == b) 3 woken woken_runs
