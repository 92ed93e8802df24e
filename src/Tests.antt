-- ===== src/Tests.antt =====
-- Runs of the definitions, and each theorem at a concrete input.
mod Sourceutil
mod Evidence
mod Fixtures
mod Compiler
mod Variants
mod Budget
mod Codex
mod Scope
mod Known
mod Supervisor
