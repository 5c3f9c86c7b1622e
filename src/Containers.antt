-- ===== src/Containers.antt =====
-- packages/datadirector/.../containers: archives, unpacked under rules that refuse.
pub mod Safety
pub mod Archive
