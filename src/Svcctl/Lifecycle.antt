-- ===== src/Svcctl/Lifecycle.antt =====
-- The life of a created service in go/src/dropbox/build_tools/svcctl/service.go: `Start`, `stop`,
-- `markStarted` and the goroutines of `waitTillHealthyAndMark`. What one of them does while it holds
-- the lock of the service is one step; the environment chooses the order of the steps and how the
-- calls to the operating system end. The goroutines that close the log file, poll a health check or
-- store the version are left out.
pub mod New
pub mod Daemon
pub mod Task
mod Tests
use dbx_build_tools.Base.{
  ℕ, zero, suc, ◌+◌, ◌-◌, ◌<◌, ◌≡◌, Bool, true, false, not, Option, none, some, List, ◌++◌, Str,
  if◌then◌else◌,
}
use dbx_build_tools.Svcctl.Proto.{
  ServiceType, daemon, task, StatusCode, stopped, error, starting, started, stopping,
}
use dbx_build_tools.Svcctl.Service.{Process, WaitCh, no_channel, opened, closed, ServiceDef}

-- The service, whether `stop` holds its lock while it waits for `waitCh`, and how many goroutines of
-- `waitTillHealthyAndMark` there are: `spawned` are about to read `svc.Process` under the lock,
-- `watching` wait for a process, `reporting` are about to report
-- its exit, and `checking` wait for the health checks.
pub record Life : Type 0 where
  pub svc : ServiceDef
  pub held : Bool
  pub spawned : ℕ
  pub watching : ℕ
  pub reporting : ℕ
  pub checking : ℕ

abbrev pub new_life : ServiceDef → Life
new_life svc = record {
  svc = svc;
  held = false;
  spawned = 0;
  watching = 0;
  reporting = 0;
  checking = 0;
}

-- Whether `svc.Process.Cmd.Process` can be read.
abbrev pub launched : Option Process → Bool
launched none = false
launched (some process) = elim process.pid [ none ↦ false | some _ ↦ true ]

unfoldable pub mark_started : ℕ → ServiceDef → ServiceDef
mark_started now svc = elim svc.status [
  | starting ↦ record svc { start_duration = now - svc.start_time; status = started }
  | _ ↦ svc
]

pub data StartFailure : Type 0 where
  no_log_file launch_failed : StartFailure

-- `Start`, with the time, whether the log file could be opened, and the process id if
-- `svc.Process.Start()` succeeds. The goroutine of `waitTillHealthyAndMark` has not run yet.
unfoldable pub start : ℕ → Bool → Option ℕ → Life → Life × Option StartFailure
start now log_opened launch l = elim l.svc.status [
  | stopped ↦
      let svc = record l.svc { start_time = now; wait_ch = opened } in
      if not log_opened then (record l { svc = svc }, some no_log_file) else elim launch [
        | none ↦ (
          record l {
            svc = record svc {
              start_duration = 0;
              process = some (record { pid = none });
              status = error;
            };
          },
          some launch_failed,
        )
        | some pid ↦ (
          record l {
            svc = record svc {
              start_duration = 0;
              process = some (record { pid = some pid });
              status = starting;
            };
            spawned = suc l.spawned;
          },
          none,
        )
      ]
  | _ ↦ (l, none)
]

-- What a goroutine of `waitTillHealthyAndMark` does first: it reads `svc.Process` under the lock, and
-- goes on to wait for that process, which panics if there is none (none). A daemon's goroutine waits
-- for the health checks at the same time.
unfoldable pub fetch : Life → Option Life
fetch l = elim l.svc.process [
  | none ↦ none
  | some process ↦ some (record l {
    spawned = l.spawned - 1;
    watching = suc l.watching;
    checking = elim l.svc.service_type [ daemon ↦ suc l.checking | task ↦ l.checking ];
  })
]

-- What follows the return of `process.Wait()` up to the lock: `appendSanitizerErrors` and
-- `close(svc.waitCh)`, which panics on a nil or closed channel (none). A task that exits without an
-- error goes on to its health checks.
unfoldable pub exit : List Str → Bool → Life → Option Life
exit errs failed l =
    let svc = record l.svc {
      sanitizer_errors = l.svc.sanitizer_errors ++ errs;
      wait_ch = closed;
    } in
    let reports = record l { svc = svc; watching = l.watching - 1; reporting = suc l.reporting } in
    elim l.svc.wait_ch [
      | opened ↦ elim svc.service_type [
        | daemon ↦ some reports
        | task ↦
            if failed
            then some reports
            else some (record l { svc = svc; watching = l.watching - 1; checking = suc l.checking })
      ]
      | _ ↦ none
    ]

-- The report of an exit, under the lock.
unfoldable pub report : ServiceDef → ServiceDef
report svc = elim svc.status [
  | starting ↦ record svc { status = error }
  | started ↦ record svc { status = error }
  | _ ↦ svc
]

-- How `stop` goes on: it returns, without or with the error of the signal, it waits for `waitCh`, or
-- it panics.
pub data StopEnd : Type 0 where
  returned : Life → StopEnd
  kill_failed : Life → StopEnd
  waits : Life → StopEnd
  crashed : StopEnd

-- `svc.exited()`
abbrev pub exited : WaitCh → Bool
exited closed = true
exited opened = false
exited no_channel = false

abbrev pub now_stopped : ℕ → ServiceDef → ServiceDef
now_stopped later svc = record svc {
  process = none;
  status = stopped;
  stop_duration = later - svc.stop_time;
}

-- `stop` up to its loop, with the times before and after the signal and whether the signal failed.
unfoldable pub stop : ℕ → ℕ → Bool → Life → StopEnd
stop now later kill_err l =
    let svc = record l.svc { stop_time = now; status = stopping } in
    elim l.svc.status [
      | stopped ↦ returned l
      | _ ↦ elim svc.service_type [
        | daemon ↦
            if not (launched svc.process)
            then crashed
            else if kill_err
            then (if exited svc.wait_ch
                then returned (record l { svc = now_stopped later svc })
                else kill_failed (record l { svc = record svc { stop_duration = later - now } }))
            else waits (record l { svc = svc; held = true })
        | task ↦
            returned
              (record l { svc = record svc { status = stopped; stop_duration = later - now } })
      ]
    ]

-- A step of the service or of one of its goroutines.
pub data LifeStep (l : Life) : Life → Type 0 where
  starts :
      (now : ℕ) (log_opened : Bool) (launch : Option ℕ)
      → l.held ≡ false
      → LifeStep l (start now log_opened launch l).0
  fetches : {l' : Life} → l.held ≡ false → 0 < l.spawned → fetch l ≡ some l' → LifeStep l l'
  exits :
      (errs : List Str) (failed : Bool) {l' : Life}
      → 0 < l.watching
      → exit errs failed l ≡ some l'
      → LifeStep l l'
  reports :
      l.held ≡ false
      → 0 < l.reporting
      → LifeStep l (record l { svc = report l.svc; reporting = l.reporting - 1 })
  marks :
      (now : ℕ)
      → l.held ≡ false
      → 0 < l.checking
      → LifeStep l (record l { svc = mark_started now l.svc; checking = l.checking - 1 })
  stops :
      (now later : ℕ) (kill_err : Bool) {l' : Life}
      → l.held ≡ false
      → stop now later kill_err l ≡ returned l'
      → LifeStep l l'
  fails_to_stop :
      (now later : ℕ) (kill_err : Bool) {l' : Life}
      → l.held ≡ false
      → stop now later kill_err l ≡ kill_failed l'
      → LifeStep l l'
  waits_to_stop :
      (now later : ℕ) (kill_err : Bool) {l' : Life}
      → l.held ≡ false
      → stop now later kill_err l ≡ waits l'
      → LifeStep l l'
  -- `waitCh` is closed, and the loop of `stop` ends.
  finishes :
      (later : ℕ)
      → l.held ≡ true
      → l.svc.wait_ch ≡ closed
      → LifeStep l (record l { svc = now_stopped later l.svc; held = false })

pub data Lives (l : Life) : Life → Type 0 where
  here : Lives l l
  next : {m n : Life} → Lives l m → LifeStep m n → Lives l n
