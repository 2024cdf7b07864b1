-- ===== src/External.antt =====
-- backend/app/services/external_observations.py: the client of an external feed. States has the
-- parsing of its answer, Client the client with its cache, its pauses and its circuit breaker, Source
-- what an answer does to it, Silence when it sends no request, Outcomes and Tally its counts, and
-- Service the comparison with a local observation (backend/app/services/corroboration_service.py).
pub mod States
pub mod Client
pub mod Source
pub mod Silence
pub mod Outcomes
pub mod Tally
pub mod Service
mod Tests
