-- ===== src/Gc.antt =====
-- src/gc.c: the bounded garbage collection of adaptive state.
pub mod Names
pub mod Gate
pub mod FailSafe
pub mod Queries
pub mod Commands
pub mod Spent
pub mod Lazy
pub mod Marks
pub mod Run
