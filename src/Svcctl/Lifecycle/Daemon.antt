-- ===== src/Svcctl/Lifecycle/Daemon.antt =====
-- Daemons: services of go/src/dropbox/build_tools/svcctl/service.go that run until they are stopped.
use dbx_build_tools.Base.{
  subst, ℕ, suc, ◌+◌, ◌-◌, ◌≤◌, ◌<◌, ◌≡◌, refl, ◌≢◌, ◌↔◌, ◌⊎◌, inl, inr, Bool, true, false, Option,
  some, List, Str, arith,
}
use dbx_build_tools.Svcctl.Proto.{daemon, stopped, starting, error, stopping}
use dbx_build_tools.Base.Result.{ok}
use dbx_build_tools.Svcctl.Proto.{ServiceProto}
use dbx_build_tools.Svcctl.Service.{ServiceEnv, new_service}
use dbx_build_tools.Svcctl.Lifecycle.New.{IsNew, new_service-IsNew}
use dbx_build_tools.Svcctl.Service.{opened, closed, ServiceDef}
use dbx_build_tools.Svcctl.Lifecycle.{
  Life, new_life, launched, mark_started, start, fetch, exit, report, returned, kill_failed, waits,
  crashed, now_stopped, stop, LifeStep, starts, fetches, exits, reports, marks, stops,
  fails_to_stop, waits_to_stop, finishes, Lives, here, next,
}

-- A daemon has at most one goroutine that waits for its process or is about to, which finds the
-- channel open and the process launched; a stopped daemon has no process and no such goroutine; a
-- process that was launched has such a goroutine or has closed the channel; a daemon without a process that is not stopped failed to
-- launch; and `stop` holds the lock only while it stops a process.
pub record IsConsistent (l : Life) : Type 0 where
  pub type : l.svc.service_type ≡ daemon
  pub one : l.spawned + l.watching ≤ 1
  pub watched :
      0 < l.spawned + l.watching → (l.svc.wait_ch ≡ opened) × (launched l.svc.process ≡ true)
  pub idle :
      l.svc.status ≡ stopped → (l.spawned + l.watching ≡ 0) × (launched l.svc.process ≡ false)
  pub ended :
      launched l.svc.process ≡ true → (l.spawned + l.watching ≡ 1) ⊎ (l.svc.wait_ch ≡ closed)
  pub unlaunched : l.svc.status ≢ stopped → launched l.svc.process ≡ false → l.svc.status ≡ error
  pub stopping : l.held ≡ true → l.svc.status ≡ stopping

start-IsConsistent :
    (now : ℕ) (log_opened : Bool) (launch : Option ℕ) (l : Life)
    → l.held ≡ false
    → IsConsistent l
    → IsConsistent (start now log_opened launch l).0
unfolding start
start-IsConsistent now log_opened launch l free c = record {
  type = ground (arith, c.type);
  one = ground (arith, c.one, c.idle);
  watched = λ h. ground (arith, c.type, c.one, c.idle, c.watched, h);
  idle = λ h. ground (arith, c.idle, h);
  ended = λ h. ground (arith, c.idle, c.ended, h);
  unlaunched = λ n h. ground (arith, c.unlaunched, n, h);
  stopping = λ h. ground (arith, c.stopping, h, free);
}

fetch-IsConsistent :
    (l l' : Life)
    → l.held ≡ false
    → 0 < l.spawned
    → fetch l ≡ some l'
    → IsConsistent l
    → IsConsistent l'
unfolding fetch
fetch-IsConsistent l l' free s h c = record {
  type = ground (arith, h, c.type);
  one = ground (arith, h, s, c.one);
  watched = λ x. ground (arith, h, s, c.watched, x);
  idle = λ x. ground (arith, h, s, c.idle, x);
  ended = λ x. ground (arith, h, s, c.ended, x);
  unlaunched = λ n x. ground (arith, h, c.unlaunched, n, x);
  stopping = λ x. ground (arith, h, c.stopping, x, free);
}

exit-IsConsistent :
    (errs : List Str) (failed : Bool) (l l' : Life)
    → 0 < l.watching
    → exit errs failed l ≡ some l'
    → IsConsistent l
    → IsConsistent l'
unfolding exit
exit-IsConsistent errs failed l l' w h c = record {
  type = ground (arith, h, c.type);
  one = ground (arith, h, c.type, c.one);
  watched = λ x. ground (arith, h, c.type, c.one, x);
  idle = λ x. ground (arith, h, c.type, c.idle, x);
  ended = λ x. ground (arith, h, c.type, x);
  unlaunched = λ n x. ground (arith, h, c.type, c.unlaunched, n, x);
  stopping = λ x. ground (arith, h, c.type, c.stopping, x);
}

report-IsConsistent :
    (l : Life)
    → l.held ≡ false
    → IsConsistent l
    → IsConsistent (record l { svc = report l.svc; reporting = l.reporting - 1 })
unfolding report
report-IsConsistent l free c = record {
  type = ground (arith, c.type);
  one = c.one;
  watched = λ x. ground (arith, c.watched, x);
  idle = λ x. ground (arith, c.idle, x);
  ended = λ x. ground (arith, c.ended, x);
  unlaunched = λ n x. ground (arith, c.unlaunched, n, x);
  stopping = λ x. ground (arith, free, x);
}

mark-IsConsistent :
    (now : ℕ) (l : Life)
    → l.held ≡ false
    → IsConsistent l
    → IsConsistent (record l { svc = mark_started now l.svc; checking = l.checking - 1 })
unfolding mark_started
mark-IsConsistent now l free c = record {
  type = ground (arith, c.type);
  one = c.one;
  watched = λ x. ground (arith, c.watched, x);
  idle = λ x. ground (arith, c.idle, x);
  ended = λ x. ground (arith, c.ended, x);
  unlaunched = λ n x. ground (arith, c.unlaunched, n, x);
  stopping = λ x. ground (arith, free, x);
}

stop-IsConsistent :
    (now later : ℕ) (kill_err : Bool) (l l' : Life)
    → l.held ≡ false
    → (stop now later kill_err l ≡ returned l')
      ⊎ ((stop now later kill_err l ≡ kill_failed l') ⊎ (stop now later kill_err l ≡ waits l'))
    → IsConsistent l
    → IsConsistent l'
unfolding stop
stop-IsConsistent now later kill_err l l' free h c = record {
  type = ground (arith, h, c.type);
  one = ground (arith, h, c.type, c.one);
  watched = λ x. ground (arith, h, c.type, c.watched, x);
  idle = λ x. ground (arith, h, c.type, c.idle, c.one, c.watched, x);
  ended = λ x. ground (arith, h, c.type, c.ended, x);
  unlaunched = λ n x. ground (arith, h, c.type, c.unlaunched, n, x);
  stopping = λ x. ground (arith, h, c.type, free, x);
}

finish-IsConsistent :
    (later : ℕ) (l : Life)
    → l.svc.wait_ch ≡ closed
    → IsConsistent l
    → IsConsistent (record l { svc = now_stopped later l.svc; held = false })
finish-IsConsistent later l h c = record {
  type = c.type;
  one = c.one;
  watched = λ x. absurd (ground (arith, h, (c.watched x).0));
  idle = λ x. ground (arith, h, c.watched, c.one);
  ended = λ x. absurd (cc);
  unlaunched = λ n x. absurd (n refl);
  stopping = λ x. absurd (cc);
}

LifeStep-IsConsistent : {l l' : Life} → LifeStep l l' → IsConsistent l → IsConsistent l'
LifeStep-IsConsistent {l} (starts now log_opened launch free) c =
    start-IsConsistent now log_opened launch l free c
LifeStep-IsConsistent {l} {l'} (fetches free s h) c = fetch-IsConsistent l l' free s h c
LifeStep-IsConsistent {l} {l'} (exits errs failed w h) c = exit-IsConsistent errs failed l l' w h c
LifeStep-IsConsistent {l} (reports free n) c = report-IsConsistent l free c
LifeStep-IsConsistent {l} (marks now free n) c = mark-IsConsistent now l free c
LifeStep-IsConsistent {l} {l'} (stops now later k free h) c =
    stop-IsConsistent now later k l l' free (inl h) c
LifeStep-IsConsistent {l} {l'} (fails_to_stop now later k free h) c =
    stop-IsConsistent now later k l l' free (inr (inl h)) c
LifeStep-IsConsistent {l} {l'} (waits_to_stop now later k free h) c =
    stop-IsConsistent now later k l l' free (inr (inr h)) c
LifeStep-IsConsistent {l} (finishes later held h) c = finish-IsConsistent later l h c

new_life-IsConsistent : (d : ServiceDef) → IsNew daemon d → IsConsistent (new_life d)
new_life-IsConsistent d n = record {
  type = n.type;
  one = omega arith;
  watched = λ x. absurd (omega (arith, x));
  idle = λ x. (refl, rw n.process refl);
  ended = λ x. absurd (ground (arith, x, n.process));
  unlaunched = λ m x. absurd (m n.status);
  stopping = λ x. absurd (cc);
}

-- While `stop` holds the lock and waits, the goroutine of the last `Start` has not read `svc.Process`.
abbrev pub IsStuck : Life → Type 0
IsStuck l = (l.held ≡ true) × (0 < l.spawned)

-- A start of a stopped daemon that succeeds.
started_once :
    (l : Life)
    → l.held ≡ false
    → l.svc.status ≡ stopped
    → l.svc.service_type ≡ daemon
    → (l' : Life) × LifeStep l l'
      × (l'.held ≡ false)
      × (l'.svc.service_type ≡ daemon)
      × (l'.svc.status ≡ starting)
      × (launched l'.svc.process ≡ true)
      × (l'.spawned ≡ suc l.spawned)
unfolding start
started_once l free idle type = (
  (start 0 true (some 1) l).0,
  starts 0 true (some 1) free,
  ground (arith, free, idle),
  ground (arith, type, idle),
  ground (arith, idle),
  ground (arith, idle),
  ground (arith, idle),
)

-- A `stop` of a daemon whose process was launched, and whose signal is delivered.
stop-waits :
    (l : Life)
    → l.svc.service_type ≡ daemon
    → l.svc.status ≡ starting
    → launched l.svc.process ≡ true
    → stop 0 0 false l
      ≡ waits (record l { svc = record l.svc { stop_time = 0; status = stopping }; held = true })
unfolding stop
stop-waits l type busy up = ground (arith, type, busy, up)

module _ (env : ServiceEnv) (svc : ServiceProto) (services : List (Str × ℕ)) (verbose : Bool)
    (d : ServiceDef) (made : new_service env svc services verbose ≡ ok d)
    (type : svc.type ≡ daemon) where
  -- Whatever happens to a daemon that `NewService` made, and in whatever order: at most one goroutine
  -- waits for its process or is about to, and the channel that it will close is open and the process
  -- launched; if the daemon is stopped, it has neither a process nor such a goroutine; a process that
  -- was launched has such a goroutine, or has closed the channel; a daemon that is not stopped has no
  -- process only in the state ERROR; and `stop` holds the lock only in the state STOPPING.
  pub Lives-IsConsistent : {l : Life} → Lives (new_life d) l → IsConsistent l
  Lives-IsConsistent here =
      new_life-IsConsistent d
        (subst (λ t. IsNew t d) type (new_service-IsNew env svc services verbose d made))
  Lives-IsConsistent (next r s) = LifeStep-IsConsistent s (Lives-IsConsistent r)

  -- `stop` of a daemon panics exactly if the last launch failed: its state is ERROR, and there is no
  -- process to signal.
  pub daemon_stop_crashes :
      {l : Life}
      → Lives (new_life d) l
      → (now later : ℕ) (kill_err : Bool)
      → (stop now later kill_err l ≡ crashed)
        ↔ ((l.svc.status ≡ error) × (launched l.svc.process ≡ false))
  unfolding stop
  daemon_stop_crashes {l} r now later kill_err =
      let c = Lives-IsConsistent r in ground (arith, c.type, c.unlaunched)

  -- `stop` of a daemon can be left waiting for ever: a `stop` that takes the lock right after a
  -- `Start` waits for `waitCh` before the goroutine of that `Start` could read `svc.Process`; and in
  -- every such state of the daemon no step is possible, neither of `stop`, nor of the goroutine, which
  -- needs the lock, nor of any other.
  pub daemon_stop_deadlocks :
      ((l : Life) × Lives (new_life d) l × IsStuck l)
      × ((l m : Life) → Lives (new_life d) l → IsStuck l → LifeStep l m → ⊥)
  daemon_stop_deadlocks =
      let new = subst (λ t. IsNew t d) type (new_service-IsNew env svc services verbose d made) in
      let (l1, s1, free1, type1, busy, up, n1) =
        started_once (new_life d) refl new.status new.type in
      (
        (
          record l1 { svc = record l1.svc { stop_time = 0; status = stopping }; held = true },
          next (next here s1) (waits_to_stop 0 0 false free1 (stop-waits l1 type1 busy up)),
          (refl, omega (arith, n1)),
        ),
        λ l m r stuck s. stays r stuck s,
      )
    where
      stays : {l m : Life} → Lives (new_life d) l → IsStuck l → LifeStep l m → ⊥
      stays r (held, s) (starts now log_opened launch free) = cc
      stays r (held, s) (fetches free n h) = cc
      stays r (held, s) (exits errs failed w h) =
          let c = Lives-IsConsistent r in omega (arith, c.one, s, w)
      stays r (held, s) (reports free n) = cc
      stays r (held, s) (marks now free n) = cc
      stays r (held, s) (stops now later k free h) = cc
      stays r (held, s) (fails_to_stop now later k free h) = cc
      stays r (held, s) (waits_to_stop now later k free h) = cc
      stays r (held, s) (finishes later h shut) =
          let c = Lives-IsConsistent r in ground (arith, shut, (c.watched (omega (arith, s))).0)
