-- ===== src/StateCleanup.antt =====
-- src/state_cleanup.c: removal of learned adaptive state from the router, with verification.
pub mod Match
pub mod Scan
pub mod Matching
pub mod Entry
pub mod Disable
