-- ===== src/Config.antt =====
-- The settings file of src/config.c: its lines, the options, and loading.
pub mod Options
pub mod Load
pub mod Write
