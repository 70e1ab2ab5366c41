-- ===== src/Billing.antt =====
-- Purchases through the App Store.
mod Purchases
mod Service
pub mod Claims
pub mod Grants
pub mod Ownership
pub use Purchases.*
unfoldable pub use Service.*
