-- ===== src/Titles.antt =====
-- The titles of tracks and videos (app/domain/services/track_title.py, video_title.py).
pub mod Derive
pub mod Laws
