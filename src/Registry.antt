-- ===== src/Registry.antt =====
-- The registry vector gates of tools/validate.py.
pub mod PageBoundary
pub mod Checkpoint
pub mod Bootstrap
