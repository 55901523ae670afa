-- ===== src/Topological.antt =====
-- The parallel task runner, go/src/dropbox/build_tools/svcctl/topological/runner.go.
pub mod Task
pub mod Unique
pub mod Runner
pub mod Critical
pub mod Reversed
mod Tests
