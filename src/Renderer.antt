-- ===== src/Renderer.antt =====
-- The generator of the RouterOS scripts, src/renderer.c.
pub mod Replace
pub mod Snippet
pub mod Build
