-- ===== src/Work.antt =====
-- Generation jobs: the tables, their repository, and the base of the pipelines.
pub mod Rows
pub mod Repository
pub mod Base
pub mod Runtime
pub mod Tracks
pub mod Coins
pub mod Changes
pub mod Frame
pub mod Settle
