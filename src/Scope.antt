-- ===== src/Scope.antt =====
-- internal/phpscope: which symbols a call in a file may name.
pub mod Php
pub mod Resolved
