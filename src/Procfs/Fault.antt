-- ===== src/Procfs/Fault.antt =====
-- The errors that go/src/dropbox/procfs tells apart.

pub data Fault : Type 0 where
  not_exist : Fault
  esrch : Fault
  permission : Fault
  other : Fault
