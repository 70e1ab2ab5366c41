-- ===== src/Wallet.antt =====
-- `CoinWalletService` (app/domain/services/credits.py).
mod Service
pub mod Balance
pub mod Audit
pub mod Calls
pub mod Refinement
pub mod Effects
pub use Service.{Reserved, entry, update_wallet}
unfoldable pub use Service.{
  price_of, reserve_price, reserve, charge_price, charge, refund, capture, release, wallet,
}
