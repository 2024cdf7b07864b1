-- ===== src/Engine.antt =====
-- backend/integrity_core: the integrity engine. `Models` and `Policy` are the value objects,
-- `Env` what the engine takes from outside it, `Track` one track's memory of messages and
-- observations, `Evidence` the life of a piece of evidence, `Candidates` the tests that find some,
-- `Cache` the bounds on the tracks held, `Ingest` the entry point.
pub mod Models
pub mod Policy
pub mod Env
pub mod Track
pub mod Evidence
pub mod Candidates
pub mod Cache
pub mod Ingest
mod Tests
