-- ===== src/Job.antt =====
-- packages/datadirector/.../job_handle.py: what a log says of its job, and the handle through which
-- an agent reaches it.
pub mod Items
pub mod Log
pub mod Views
pub mod Handle
