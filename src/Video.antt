-- ===== src/Video.antt =====
-- The pipeline of videos (app/domain/services/pipelines/video.py).
pub mod Prompt
pub mod Start
pub mod Finish
pub mod Frame
pub mod Laws
