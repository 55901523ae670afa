-- ===== src/Sqfs.antt =====
-- The image builder, go/src/dropbox/build_tools/build-sqfs/main.go.
pub mod Manifest
pub mod Link
mod Tests
