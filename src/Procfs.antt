-- ===== src/Procfs.antt =====
-- What go/src/dropbox/procfs reads in /proc.
pub mod Fault
pub mod Tree
pub mod Stat
pub mod Env
pub mod Usage
mod Tests
