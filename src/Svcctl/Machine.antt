-- ===== src/Svcctl/Machine.antt =====
-- The state machine of go/src/dropbox/build_tools/svcctl/state_machine/state_machine.go, whose state
-- callers set, read, and wait for a change of.
pub mod Waits
use dbx_build_tools.Base.{
  ℕ, Bool, Option, none, some, List, [], ◌∷◌, ◌++◌, ◌≡◌, get_elem?, set, if◌then◌else◌,
}

-- A call of `WaitTillNotState`: about to test its loop, in `Wait` of the condition, or returned.
pub data Waiter (S : Type 0) : Type 0 where
  testing : S → Waiter S
  sleeping : S → Waiter S
  returned : S → S → Waiter S

pub record Machine (S : Type 0) : Type 0 where
  pub state : S
  pub waiters : List (Waiter S)

-- `stateChange.Broadcast()`
unfoldable pub rouse : {S : Type 0} → Waiter S → Waiter S
rouse (testing n) = testing n
rouse (sleeping n) = testing n
rouse (returned n s) = returned n s

unfoldable pub rouse_all : {S : Type 0} → List (Waiter S) → List (Waiter S)
unfolding rouse
rouse_all [] = []
rouse_all (w ∷ ws) = rouse w ∷ rouse_all ws

-- `New`
unfoldable pub new_machine : {S : Type 0} → S → Machine S
new_machine initial_state = record { state = initial_state; waiters = [] }

unfoldable pub get_state : {S : Type 0} → Machine S → S
get_state m = m.state

unfoldable pub set_state : {S : Type 0} → S → Machine S → Machine S
unfolding rouse_all
set_state new_state m = record { state = new_state; waiters = rouse_all m.waiters }

-- The call of `WaitTillNotState`.
unfoldable pub call_wait : {S : Type 0} → S → Machine S → Machine S
call_wait not_state m = record m { waiters = m.waiters ++ testing not_state ∷ [] }

module _ {S : Type 0} (same : S → S → Bool) where
  -- One test of `for s.state == notState`, up to `Wait`, which gives the lock up, or the return.
  unfoldable pub test_loop : S → S → Waiter S
  test_loop state not_state =
      if same state not_state then sleeping not_state else returned not_state state

  -- What one caller does while it holds the lock.
  pub data MachineStep (m : Machine S) : Machine S → Type 0 where
    sets : (new_state : S) → MachineStep m (set_state new_state m)
    calls : (not_state : S) → MachineStep m (call_wait not_state m)
    tests :
        (i : ℕ) (not_state : S)
        → get_elem? m.waiters i ≡ some (testing not_state)
        → MachineStep m (record m { waiters = set m.waiters i (test_loop m.state not_state) })

  -- Any number of steps of any callers.
  pub data MachineRuns (m : Machine S) : Machine S → Type 0 where
    here : MachineRuns m m
    next : {n o : Machine S} → MachineRuns m n → MachineStep n o → MachineRuns m o
