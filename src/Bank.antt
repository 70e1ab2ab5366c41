-- ===== src/Bank.antt =====
-- The billing tables: the rows of app/domain/models/billing.py, and the store that holds them.
mod Rows
mod Repository
pub use Rows.*
unfoldable pub use Repository.{
  ensure_wallet, append_ledger, list_ledger, upsert_subscription, expire_foreign_subscriptions,
  get_active_price, upsert_price,
}
pub use Repository.{
  get_wallet, put_wallet, empty_wallet, bears, has_key, is_taken, insert_unless, idempotency_exists,
  get_subscription, empty_subscription, is_active, has_otid, expire_row, upsert_row,
}
