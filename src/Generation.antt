-- ===== src/Generation.antt =====
-- The creation of jobs (app/domain/services/generation_service.py) and the screen of their texts
-- (app/domain/services/moderation_service.py).
pub mod Moderation
pub mod Service
pub mod Making
pub mod Laws
