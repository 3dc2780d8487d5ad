-- ===== src/Direct.antt =====
-- The targets that bypass the tunnel, src/direct.c.
pub mod Value
pub mod Database
pub mod Collect
pub mod Sync
pub mod Change
