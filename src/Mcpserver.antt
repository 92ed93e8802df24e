-- ===== src/Mcpserver.antt =====
-- internal/mcpserver: the server that a host talks to.
pub mod Supervisor
