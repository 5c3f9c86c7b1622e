-- ===== src/Workflow.antt =====
-- packages/datadirector/.../workflow: external effects, the engine and the graph of steps.
pub mod Effects
pub mod Graph
pub mod Engine
pub mod Definition
