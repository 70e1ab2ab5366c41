-- ===== src/Voice.antt =====
-- The pipeline of voices (app/domain/services/pipelines/voice_clone.py) over `VoiceRepository`
-- (app/domain/repositories/voice.py), and what its start promises.
pub mod Pipeline
pub mod Frame
pub mod Endings
pub mod Laws
