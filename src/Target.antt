-- ===== src/Target.antt =====
-- The choice of the tunnel, src/target.c.
pub mod Interfaces
pub mod Routes
pub mod Select
