-- ===== src/Adapty.antt =====
-- The webhook of Adapty: app/domain/providers/billing/adapty.py,
-- app/domain/services/adapty_webhook_service.py and webhook_user_resolve.py.
pub mod Parser
pub mod Service
pub mod Classify
pub mod Journal
pub mod Delivery
pub mod Grants
pub mod Audit
