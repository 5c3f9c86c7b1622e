-- ===== src/State.antt =====
-- packages/datadirector/.../state: the append-only event log and the state folded from it.
pub mod Store
pub mod Projection
