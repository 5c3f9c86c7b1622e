-- ===== src/Gate.antt =====
-- packages/datadirector/.../gate: collecting gate items, deciding them, and the artefacts that the
-- decisions leave to upload.
pub mod Items
pub mod Review
pub mod Upload
