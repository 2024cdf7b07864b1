-- ===== src/Sidecar.antt =====
-- sidecar: the feeder's process, which reads a stream of SBS lines. Sbs parses a line and keeps the
-- state of an aircraft, Store keeps the events in files of a bounded size, Runtime has the queue, the
-- subscribers and the processing of a line, through the integrity engine.
pub mod Sbs
pub mod Store
pub mod Runtime
mod Tests
