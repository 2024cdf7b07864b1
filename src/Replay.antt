-- ===== src/Replay.antt =====
-- services/replay: recordings of SBS messages, and their playback.
pub mod Recording
pub mod Playback
pub mod Cursor
pub mod Controller
mod Tests
