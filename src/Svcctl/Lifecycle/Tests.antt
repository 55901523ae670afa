-- ===== src/Svcctl/Lifecycle/Tests.antt =====
-- A daemon and a task of go/src/dropbox/build_tools/svcctl/service.go in some of their states.
use dbx_build_tools.Base.{
  ◌<◌, ◌≡◌, refl, ◌↔◌, true, false, none, some, [], ◌∷◌, codes, str_eq, has_prefix, contains_byte,
  split, join, arith,
}
use dbx_build_tools.Base.Result.{ok}
use dbx_build_tools.Runfiles.{has_relative, validate_repo_path, data_path}
use dbx_build_tools.Svcctl.Proto.{ServiceProto, daemon, task, stopped, error, stopping}
use dbx_build_tools.Svcctl.Service.{
  closed, resolve, sort_checks, full_paths, service_def, ServiceDef, new_service,
}
use dbx_build_tools.Svcctl.Fixtures.{env, service_of}
use dbx_build_tools.Svcctl.Lifecycle.{
  Life, new_life, launched, start, fetch, exit, crashed, LifeStep, fetches, stop, starts,
  waits_to_stop, Lives, here, next,
}
use dbx_build_tools.Svcctl.Lifecycle.Daemon.{
  IsConsistent, Lives-IsConsistent, daemon_stop_crashes, IsStuck, daemon_stop_deadlocks,
}
use dbx_build_tools.Svcctl.Lifecycle.Task.{task_restart_panics}

abbrev server : ServiceProto
server = service_of daemon (codes "db") []

abbrev job : ServiceProto
job = service_of task (codes "job") []

abbrev server_def : ServiceDef
server_def = service_def env server false [] ([], []) (codes "/r/v" ∷ [])

abbrev job_def : ServiceDef
job_def = service_def env job false [] ([], []) (codes "/r/v" ∷ [])

server_made : new_service env server [] false ≡ ok server_def
unfolding new_service resolve sort_checks full_paths data_path validate_repo_path has_relative
    has_prefix contains_byte split join str_eq
server_made = refl

job_made : new_service env job [] false ≡ ok job_def
unfolding new_service resolve sort_checks full_paths data_path validate_repo_path has_relative
    has_prefix contains_byte split join str_eq
job_made = refl

-- The daemon was started and has the process 7.
abbrev up : Life
up = (start 1 true (some 7) (new_life server_def)).0

up_run : Lives (new_life server_def) up
up_run = next here (starts 1 true (some 7) refl)

-- The goroutine of the start waits for it.
abbrev watched : Life
watched = record up { spawned = 0; watching = 1; checking = 1 }

watched_run : Lives (new_life server_def) watched
unfolding start fetch service_def
watched_run = next up_run (fetches refl (omega arith) refl)

-- Its process has exited.
abbrev fallen : Life
fallen = record watched { svc = record up.svc { wait_ch = closed }; watching = 0; reporting = 1 }

-- `stop` waits for the process.
abbrev halting : Life
halting = record watched { svc = record up.svc { stop_time = 3; status = stopping }; held = true }

halting_run : Lives (new_life server_def) halting
unfolding start stop service_def
halting_run = next watched_run (waits_to_stop 3 4 false refl refl)

-- `stop` found that the process had exited.
abbrev ended : Life
ended = record fallen {
  svc = record fallen.svc { stop_time = 3; status = stopped; process = none; stop_duration = 1 };
}

Lives-IsConsistent_example : IsConsistent halting
unfolding service_def
Lives-IsConsistent_example =
    Lives-IsConsistent env server [] false server_def server_made refl halting_run

daemon_stop_crashes_example :
    (stop 3 4 false up ≡ crashed) ↔ ((up.svc.status ≡ error) × (launched up.svc.process ≡ false))
daemon_stop_crashes_example =
    daemon_stop_crashes env server [] false server_def server_made refl up_run 3 4 false

daemon_stop_deadlocks_example :
    ((l : Life) × Lives (new_life server_def) l × IsStuck l)
    × ((l m : Life) → Lives (new_life server_def) l → IsStuck l → LifeStep l m → ⊥)
daemon_stop_deadlocks_example =
    daemon_stop_deadlocks env server [] false server_def server_made refl

task_restart_panics_example :
    (l : Life) × Lives (new_life job_def) l × (0 < l.watching) × (exit [] false l ≡ none)
task_restart_panics_example = task_restart_panics env job [] false job_def job_made refl [] false
