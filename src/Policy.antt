-- ===== src/Policy.antt =====
-- packages/datadirector/.../policy: the policy enforcement point, which all model calls pass.
pub mod Enforcement
