-- ===== src/Cover.antt =====
-- The pipeline of covers (app/domain/services/pipelines/cover.py).
pub mod Stems
pub mod Pipeline
pub mod Frame
pub mod Settle
