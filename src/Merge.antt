-- ===== src/Merge.antt =====
-- The merger of BUILD files, go/src/dropbox/build_tools/build-merge/main.go.
pub mod Expr
pub mod Call
pub mod Parse
pub mod File
mod Tests
