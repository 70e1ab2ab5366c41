-- ===== src/Delivery.antt =====
-- The delivery of fal's results to the pipelines: the webhook (app/api/v1/webhooks.py) and the poller
-- (app/domain/services/poller.py), over `PipelineRunner` (app/domain/services/pipelines/runner.py).
pub mod Runner
pub mod Webhook
pub mod Poller
pub mod Frame
pub mod Claims
pub mod Once
pub mod Apart
