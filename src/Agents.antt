-- ===== src/Agents.antt =====
-- packages/datadirector/.../agents: the publication agent, whose refusals guard the deposit, and what
-- the orchestrator of pipeline.py writes for people.
pub mod Pipeline
pub mod Publication
