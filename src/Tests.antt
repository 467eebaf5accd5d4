-- ===== src/Tests.antt =====
-- Tests of the definitions, and the theorems at concrete inputs.
mod Semantic
mod Manifests
mod Recipients
mod Documents
mod Baselines
mod Envelopes
mod Commands
mod Ignores
mod Publications
mod Answers
