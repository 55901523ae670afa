-- ===== src/Procfs/Env.antt =====
-- The environments and the children of processes, as go/src/dropbox/procfs/stat.go reads them.
pub mod Bindings
use dbx_build_tools.Base.{
  ℕ, Bool, true, false, Option, none, some, List, [], ◌∷◌, ◌++◌, ◌==◌, Str, codes, cut, split,
  insert, map, is_nil, if◌then◌else◌,
}
use dbx_build_tools.Base.Result.{Result, ok, err, panic, ◌>>=◌}
use dbx_build_tools.Procfs.Fault.{Fault, not_exist, esrch, permission, other}

pub record ProcEnv : Type 0 where
  pub env : Str
  pub env_map : List (Str × Str)
  pub pid : ℕ

-- The loop of `ReadProcEnv` over the pieces between zero bytes.
unfoldable pub env_loop : List Str → List (Str × Str) → List (Str × Str)
unfolding cut insert
env_loop [] env_map = env_map
env_loop (ep ∷ pieces) env_map = env_loop pieces (
    if is_nil ep
    then env_map
    else elim (cut ep 61) [ none ↦ env_map | some (k, v) ↦ insert k v env_map ])

-- `ReadProcEnv`
unfoldable pub read_proc_env : ℕ → Result Fault Str → Result Fault ProcEnv
unfolding env_loop split
read_proc_env pid file =
    file >>= λ env. ok (record { env = env; env_map = env_loop (split env 0) []; pid = pid })

-- The errors at which `ReadAllProcEnv` goes on with the next process.
unfoldable pub is_skipped : Fault → Bool
is_skipped not_exist = true
is_skipped esrch = true
is_skipped permission = true
is_skipped other = false

module _ (atoi : Str → Option ℕ) where
  -- The loop of `ReadAllProcEnv` over the names in /proc.
  unfoldable pub envs_loop :
      (ℕ → Result Fault Str) → List Str → List ProcEnv → Result Fault (List ProcEnv)
  unfolding read_proc_env is_skipped
  envs_loop read_file [] proc_envs = ok proc_envs
  envs_loop read_file (ent ∷ entries) proc_envs = elim (atoi ent) [
    | none ↦ envs_loop read_file entries proc_envs
    | some pid ↦ elim (read_proc_env pid (read_file pid)) [
      | panic ↦ panic
      | err e ↦
          (let rest = envs_loop read_file entries proc_envs in if is_skipped e then rest else err e)
      | ok proc_env ↦ envs_loop read_file entries (proc_envs ++ proc_env ∷ [])
    ]
  ]

  -- `ReadAllProcEnv`
  unfoldable pub read_all_proc_env :
      Result Fault (List Str) → (ℕ → Result Fault Str) → Result Fault (List ProcEnv)
  unfolding envs_loop
  read_all_proc_env entries read_file = entries >>= λ names. envs_loop read_file names []

  -- The loop of `ChildPids` over the bytes of one file, where `piece` is `childrens[start:i]`; what
  -- follows the last space is dropped.
  unfoldable pub children_loop : Str → Str → List ℕ → Result Fault (List ℕ)
  children_loop piece [] child_pids = ok child_pids
  children_loop piece (ch ∷ bytes) child_pids =
      let longer = children_loop (piece ++ ch ∷ []) bytes child_pids in
      if ch == 32
      then elim (atoi piece) [
        | none ↦ err other
        | some child_pid ↦ children_loop [] bytes (child_pids ++ child_pid ∷ [])
      ]
      else longer

  -- The loop of `ChildPids` over the files of the tasks.
  unfoldable pub tasks_loop : List (Result Fault Str) → List ℕ → Result Fault (List ℕ)
  unfolding children_loop
  tasks_loop [] child_pids = ok child_pids
  tasks_loop (panic ∷ tasks) child_pids = panic
  tasks_loop (err not_exist ∷ tasks) child_pids = tasks_loop tasks child_pids
  tasks_loop (err esrch ∷ tasks) child_pids = err esrch
  tasks_loop (err permission ∷ tasks) child_pids = err permission
  tasks_loop (err other ∷ tasks) child_pids = err other
  tasks_loop (ok bytes ∷ tasks) child_pids =
      children_loop [] bytes child_pids >>= λ found. tasks_loop tasks found

  -- `ChildPids`
  unfoldable pub child_pids : Result Fault (List (Result Fault Str)) → Result Fault (List ℕ)
  unfolding tasks_loop
  child_pids tasks = tasks >>= λ files. tasks_loop files []
