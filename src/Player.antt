-- ===== src/Player.antt =====
-- The parts of the player: src/player_stopped_reason.hh, src/audiosource.hh and others.
pub mod QueuedStreams
pub mod StoppedReason
pub mod AudioSource
pub mod RefCounts
pub mod NowPlaying
pub mod Data
pub mod Skipper
