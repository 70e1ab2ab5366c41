-- ===== src/Subtitles.antt =====
-- The subtitles of a lyrics video (app/domain/services/video_mux.py): the lines, their cues and the stamps.
pub mod Cues
pub mod Laws
pub mod Lines
