-- ===== src/Evidence/Compiler.antt =====
-- internal/evidence/compiler.go.
pub mod Utility
pub mod Build
pub mod Statistics
pub mod Select
pub mod Metadata
pub mod Preprocess
pub mod Compile
