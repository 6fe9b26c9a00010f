-- ===== src/Log.antt =====
-- The library log/: recording of topics to a database, and playback from one.
pub mod Time
pub mod Statement
pub mod Descriptor
pub mod Query
pub mod Iterator
pub mod Recorder
pub mod Store
pub mod Playback
pub mod Command
mod Tests
