-- ===== src/Fal.antt =====
-- The provider fal (app/domain/providers/fal): the reading of its webhooks, and the client of its API.
pub mod Parsing
pub mod Events
pub mod Media
pub mod Http
pub mod Calls
pub mod Answers
pub mod Caught
pub mod Requests
pub mod Texts
pub mod Signature
pub mod Trust
pub mod Limits
