-- ===== src/GenBuild.antt =====
-- The BUILD generator for Go packages, go/src/dropbox/build_tools/gen-build-go.
pub mod Targets
pub mod Uniq
pub mod Tags
pub mod Write
pub mod Attributes
pub mod Text
pub mod Embed
pub mod Workspace
pub mod Process
mod Tests
