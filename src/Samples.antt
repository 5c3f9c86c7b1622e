-- ===== src/Samples.antt =====
-- Concrete inputs at which the theorems apply, and tests of the definitions on them.
mod Logs
mod RetentionWitnesses
mod EngineWitnesses
mod GraphWitnesses
mod EffectWitnesses
mod AccessWitnesses
mod StateWitnesses
mod ReviewWitnesses
mod ServiceWitnesses
mod PublishWitnesses
mod ContainerWitnesses
