-- ===== src/Svcctl/Lifecycle/Task.antt =====
-- Tasks: services of go/src/dropbox/build_tools/svcctl/service.go that run to their end.
use dbx_build_tools.Base.{
  ℕ, suc, ◌-◌, ◌<◌, ◌≡◌, refl, Bool, true, false, none, some, List, [], ◌++◌, Str, arith, subst,
}
use dbx_build_tools.Base.Result.{ok}
use dbx_build_tools.Svcctl.Proto.{ServiceProto, daemon, task, stopped, starting}
use dbx_build_tools.Svcctl.Service.{ServiceEnv, new_service, Process, opened, closed, ServiceDef}
use dbx_build_tools.Svcctl.Lifecycle.New.{IsNew, new_service-IsNew}
use dbx_build_tools.Svcctl.Lifecycle.{
  Life, new_life, start, fetch, exit, stop, LifeStep, starts, fetches, exits, stops, Lives, here,
  next,
}

-- A start of a stopped task that succeeds.
started_again :
    (l : Life) (pid : ℕ)
    → l.held ≡ false
    → l.svc.service_type ≡ task
    → l.svc.status ≡ stopped
    → (l' : Life) × LifeStep l l'
      × (l'.held ≡ false)
      × (l'.svc.service_type ≡ task)
      × (l'.svc.status ≡ starting)
      × (l'.svc.wait_ch ≡ opened)
      × (l'.svc.process ≡ some (record { pid = some pid }))
      × (l'.spawned ≡ suc l.spawned)
      × (l'.watching ≡ l.watching)
unfolding start
started_again l pid free type idle = (
  (start 0 true (some pid) l).0,
  starts 0 true (some pid) free,
  ground (arith, free, idle),
  ground (arith, type, idle),
  ground (arith, idle),
  ground (arith, idle),
  ground (arith, idle),
  ground (arith, idle),
  ground (arith, idle),
)

-- The goroutine of a starting task reads the process.
fetched_once :
    (l : Life) (process : Process)
    → l.held ≡ false
    → 0 < l.spawned
    → l.svc.process ≡ some process
    → (l' : Life) × LifeStep l l'
      × (l'.held ≡ false)
      × (l'.svc ≡ l.svc)
      × (l'.watching ≡ suc l.watching)
unfolding fetch
fetched_once l process free s up = (
  record l {
    spawned = l.spawned - 1;
    watching = suc l.watching;
    checking = elim l.svc.service_type [ daemon ↦ suc l.checking | task ↦ l.checking ];
  },
  fetches free s (rw up refl),
  free,
  refl,
  refl,
)

-- A stop of a starting task.
stopped_early :
    (l : Life)
    → l.held ≡ false
    → l.svc.service_type ≡ task
    → l.svc.status ≡ starting
    → (l' : Life) × LifeStep l l'
      × (l'.held ≡ false)
      × (l'.svc.service_type ≡ task)
      × (l'.svc.status ≡ stopped)
      × (l'.watching ≡ l.watching)
unfolding stop
stopped_early l free type busy = (
  record l { svc = record l.svc { stop_time = 0; status = stopped; stop_duration = 0 - 0 } },
  stops 0 0 false free (ground (arith, type, busy)),
  free,
  type,
  refl,
  refl,
)

-- An exit of a watched task whose channel is open.
exited_once :
    (l : Life)
    → 0 < l.watching
    → l.svc.service_type ≡ task
    → l.svc.wait_ch ≡ opened
    → (l' : Life) × LifeStep l l' × (l'.svc.wait_ch ≡ closed) × (l'.watching ≡ l.watching - 1)
unfolding exit
exited_once l w type shut = (
  record l {
    svc = record l.svc { sanitizer_errors = l.svc.sanitizer_errors ++ []; wait_ch = closed };
    watching = l.watching - 1;
    reporting = suc l.reporting;
  },
  exits [] true w (ground (arith, type, shut)),
  refl,
  refl,
)

exit_closed :
    (errs : List Str) (failed : Bool) (l : Life)
    → l.svc.wait_ch ≡ closed
    → exit errs failed l ≡ none
unfolding exit
exit_closed errs failed l shut = rw shut refl

-- A task that is stopped and started again while it still runs can panic: there is a run of it in
-- which the second of its processes exits and its goroutine closes a channel that is closed.
pub task_restart_panics :
    (env : ServiceEnv) (svc : ServiceProto) (services : List (Str × ℕ)) (verbose : Bool)
    (d : ServiceDef)
    → new_service env svc services verbose ≡ ok d
    → svc.type ≡ task
    → (errs : List Str) (failed : Bool)
    → (l : Life) × Lives (new_life d) l × (0 < l.watching) × (exit errs failed l ≡ none)
task_restart_panics env svc services verbose d made type errs failed =
    let new = subst (λ t. IsNew t d) type (new_service-IsNew env svc services verbose d made) in
    let (l1, s1, free1, type1, busy1, _, up1, k1, n1) =
      started_again (new_life d) 1 refl new.type new.status in
    let (l2, s2, free2, same2, n2) = fetched_once l1 _ free1 (omega (arith, k1)) up1 in
    let (l3, s3, free3, type3, idle, n3) =
      stopped_early l2 free2 (rw same2 type1) (rw same2 busy1) in
    let (l4, s4, free4, type4, _, open4, up4, k4, n4) = started_again l3 2 free3 type3 idle in
    let (l5, s5, free5, same5, n5) = fetched_once l4 _ free4 (omega (arith, k4)) up4 in
    let (l6, s6, shut, n6) =
      exited_once l5 (omega (arith, n2, n3, n4, n5)) (rw same5 type4) (rw same5 open4) in
    (
      l6,
      next {n = l6}
          (next {n = l5}
            (next {n = l4} (next {n = l3} (next {n = l2} (next {n = l1} here s1) s2) s3) s4) s5)
          s6,
      omega (arith, n2, n3, n4, n5, n6),
      exit_closed errs failed l6 shut,
    )
