-- ===== src/Svcctl.antt =====
-- The service controller, go/src/dropbox/build_tools/svcctl.
pub mod Machine
pub mod Proto
pub mod Service
pub mod Duration
pub mod Processor
pub mod Lifecycle
mod Fixtures
mod Tests
