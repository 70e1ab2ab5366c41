-- ===== src/Tests.antt =====
-- Runs on concrete data: the theorems applied where their hypotheses hold.
mod Data
mod Money
mod Store
mod Webhooks
mod Songs
mod Texts
mod Outside
mod Deliveries
mod Outputs
