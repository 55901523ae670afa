-- ===== src/Codegen.antt =====
-- The writers of generated code, go/src/dropbox/build_tools/codegen.
pub mod Lines
pub mod Alias
pub mod Go
pub mod Python
mod Tests
