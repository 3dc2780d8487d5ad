-- ===== src/Tests.antt =====
-- Concrete runs of the theorems, on small routers.
pub mod World
pub mod Tables
pub mod Direct
pub mod Target
pub mod Rendering
pub mod Wire
pub mod Cleanup
pub mod Collection
pub mod Saving
pub mod Staging
pub mod Applying
pub mod Promoting
