-- ===== src/Codex.antt =====
-- internal/integration/codex: the block of Codex's TOML configuration that the program manages.
pub mod Toml
pub mod Block
pub mod Bounds
pub mod Append
