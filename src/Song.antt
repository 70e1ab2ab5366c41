-- ===== src/Song.antt =====
-- The song pipeline (app/domain/services/pipelines/song.py).
pub mod Text
pub mod Start
pub mod Frame
pub mod Finish
pub mod Events
pub mod Settle
pub mod Fallback
pub mod Failures
pub mod Late
pub mod Starts
pub mod Advances
