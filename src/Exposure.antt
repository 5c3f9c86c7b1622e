-- ===== src/Exposure.antt =====
-- packages/datadirector/.../exposure: the ledger of what a model was shown.
pub mod Ledger
