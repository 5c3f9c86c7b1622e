-- ===== src/Retention.antt =====
-- packages/datadirector/.../retention: finding and marking working material that may be deleted.
pub mod Sweeper
