-- ===== src/Evidence.antt =====
-- internal/evidence: the Evidence Packet, its validation, its guidance and its compiler.
pub mod Model
pub mod Validate
pub mod Candidate
pub mod Wire
pub mod Guidance
pub mod Runtime
pub mod Handles
pub mod Compiler
pub mod Segments
pub mod Variants
pub mod Roles
pub mod Known
