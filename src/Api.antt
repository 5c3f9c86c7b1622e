-- ===== src/Api.antt =====
-- packages/datadirector/.../api: who may see a job and who may act on it.
pub mod Ownership
pub mod Findings
pub mod Service
pub mod Publish
