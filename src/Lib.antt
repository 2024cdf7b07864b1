-- ===== src/Lib.antt =====
-- The ADS-B Flight Intelligence Platform: its integrity core and the evidence services.
--
-- A receiver's messages become observations (backend/app/schemas/observation.py). The integrity
-- engine (backend/integrity_core/engine.py) takes one observation at a time, keeps a bounded cache of
-- tracks, and derives evidence, snapshots and events. Beside it, three services judge what is known of
-- an aircraft: the health of the station that reports it (backend/app/services/station_health.py), its
-- agreement with an external source (backend/app/services/corroboration.py), and the trust that all the
-- evidence supports (backend/app/services/trust_assessment.py), which reads the states of the others.
-- The feeder's sidecar (sidecar) parses a receiver's lines, drives the engine with them, and stores and
-- publishes its events; recordings of such lines are validated and played back (services/replay); and a
-- client fetches what an external feed reports (backend/app/services/external_observations.py).
--
-- The files, by part:
--   Base and its modules: the native numbers with Boolean tests, lists, Python's `dict` with texts as
--     keys in insertion order, sets, `datetime`, results of code that raises.
--   Float: floating-point numbers as an interface. No law of it is assumed but those that a theorem
--     names (Replay.Controller.Reach.IsOrdered).
--   Observation: the observation and its validators; Timing its quality flags.
--   Kinematics: the statuses of an evaluation (backend/app/services/kinematics.py).
--   Engine: Models and Policy (backend/integrity_core/models.py, policy.py), Env (what the engine is
--     built with), Track (`_Track` and its message memory), Evidence (`_open_or_update`, `_expire`,
--     `_event`), Candidates (the tests of `ingest`), Cache (`_purge_inactive`, `_evict_if_needed`) and
--     Ingest (`ingest`, `_build_snapshot`, `snapshots`, `snapshot`). The modules below each of them
--     hold its theorems.
--   Station: the messages of backend/app/schemas/edge.py and `evaluate_station_health`; Limits, Nodes
--     and Health hold its theorems.
--   Corroboration: `compare_observations`; Measures, States and Errors hold its theorems.
--   Trust: `assess_trust`; Evidence, States and Validation hold its theorems.
--   Kinematics.Pair: `evaluate_pair`; Status holds its theorem.
--   RateLimit: `check_rate_limit` and the middleware of backend/app/auth/rate_limiter.py; Window
--     holds its theorem.
--   Kinematics.Window: `evaluate_window` (backend/app/services/windowed_kinematics.py); Judged holds its
--     theorem. Engine.Candidates.Kinematic gives the engine both evaluators, as
--     backend/integrity_core/evaluators.py does.
--   Replay: Recording (`Recording.from_dict` of services/replay/recording.py), Cursor (`PlaybackCursor`),
--     Controller (services/replay/controller.py), and Playback, what the two share.
--   External: States (`_parse_states` of backend/app/services/external_observations.py), Client and Source
--     (a fetch is `begin`, the authorization, and `finish`, given what the network answers),
--     Silence, Outcomes and Tally (its theorems), Service (backend/app/services/corroboration_service.py).
--   Sidecar: Sbs (sidecar/sbs.py), Store (sidecar/store.py), Runtime (sidecar/service.py and
--     backend/app/services/observation_adapters.py). An operation of the runtime returns the runtime as
--     it is left, also where it raises.
--   Each Tests module runs its part at concrete inputs.
--
-- The engine is explicit state passing: an operation takes an `EngineState` and returns the next one
-- with what it published; `none` stands for a Python exception. Of the functions of `math`, those that
-- raise ValueError outside their domain do so in Kinematics (`sqrt_fails`, `asin_fails` of Float); the
-- corroboration clamps its haversine before it. The services return a `Result`, which
-- is raised with a named error where the code raises. An aware `datetime` is a number of microseconds
-- since the first instant of the type, and a naive one a constructor of its own. Arithmetic on it that
-- leaves the range of the type raises, in the engine (Base.Moment). A duration is a whole number of
-- microseconds, as in `timedelta`; tolerances that the code keeps as seconds in a float are
-- whole microseconds too, but in Kinematics and External, where they are floats. Texts of reasons and
-- explanations are constructors that carry the values shown. `_evict_if_needed` recurses on fuel, one
-- more than the number of tracks: each round drops one track, so that the fuel is enough.
--
-- Parameters stand for what is not in the repository: `uuid5`, `isoformat`, `str.lower`, `str.upper`
-- and `str.strip`, and all floating-point operations, Python's readers of numbers and times, the hash of
-- a text, `json.dumps`, and what the network answers. The kinematic evaluators are an interface of the
-- engine (Env), of which each call may raise. What an exception within `ingest` leaves of an engine is a
-- parameter of the sidecar: an engine that raised is not read again by the loop that feeds it, which
-- ends. The durations of the policy are whole microseconds, so that making a `timedelta` of them is not
-- part of the model. Not modelled: reading and digesting a policy file, `public_dict`, the HTTP and
-- database layers, the sidecar's reconnecting reader, its metrics, its queries and the recovery of its
-- files, the sockets and Redis queues of ingestion and replay, the persistence of the services, the
-- safety assistant, the evaluation harnesses, and the parts in C, C++ and TypeScript.
pub mod Base
pub mod Float
pub mod Observation
pub mod Kinematics
pub mod Engine
pub mod Station
pub mod Corroboration
pub mod Trust
pub mod RateLimit
pub mod Replay
pub mod External
pub mod Sidecar
