-- ===== src/Admin.antt =====
-- `AdminService` (app/domain/services/admin_service.py). The route lets no number of coins below 0
-- through. `expires_at` is what the method makes of the period and of the clock.
pub mod Laws
use musicfy.Prelude.{
  ℕ, zero, suc, ◌+◌, ◌-◌, ◌*◌, ◌/◌, ◌≤◌, ◌<◌, min, max, String, ◌≡◌, refl, sym, ap, ◌∙◌, subst, ◌≢◌,
  ◌↔◌, ◌⊎◌, inl, inr, ite, Bool, true, false, not, ◌&&◌, ◌||◌, Option, none, some, List, [], ◌∷◌,
  map, arith, ltb, leb, ◌==◌, str_eq, if◌then◌else◌, Bool-cases, Option-cases, get_or, is_some,
  find, truthy, first_some, Error, Result, ok, err, is_ok, Action, pure, raise, gets, modify,
  transaction, catch, branch, or_raise, ◌>>=◌, ◌>>◌, Table, lookup, insert, erase, lookup-insert,
  lookup-erase, user_not_found,
}
use musicfy.Prelude.Int.{ℤ, pos}
use musicfy.Enums.{CreditLedgerKind, CreditSource, SubscriptionStatus, BillingProvider}
use musicfy.Bank.{
  Bank, RefType, Subscription, ensure_wallet, append_ledger, put_wallet, get_subscription,
  upsert_subscription, upsert_price,
}
use musicfy.Wallet.{entry}

abbrev pub is_known_user : ℕ → List ℕ → Bool
is_known_user u [] = false
is_known_user u (v ∷ vs) = if u == v then true else is_known_user u vs

-- `_ensure_user`
unfoldable pub ensure_user : ℕ → Action Bank (Unit {0})
ensure_user user_id b = branch (is_known_user user_id b.users) (pure tt) (raise user_not_found) b

abbrev put_coins : ℕ → ℕ → CreditLedgerKind → CreditSource → Action Bank ℕ
put_coins user_id coins kind source = do
  wallet ← ensure_wallet user_id
  modify (put_wallet user_id (record wallet { coins_available = wallet.coins_available + coins }))
  append_ledger (record (entry user_id kind) {
    amount = pos coins;
    source = some source;
    ref_type = some RefType.admin;
  })
  pure (wallet.coins_available + coins)

unfoldable pub grant_credits : ℕ → ℕ → Action Bank ℕ
grant_credits user_id coins = transaction (
    ensure_user user_id >> put_coins user_id coins CreditLedgerKind.credit_promo CreditSource.promo)

abbrev activated : String → Option ℤ → Subscription → Subscription
activated label expires_at s = record s {
  status = SubscriptionStatus.active;
  provider = some BillingProvider.apple;
  product_external_id = some label;
  original_transaction_id = none;
  expires_at = expires_at;
}

unfoldable pub grant_subscription : ℕ → ℕ → Option ℤ → String → Action Bank (Unit {0})
grant_subscription user_id coins expires_at label = transaction (do
  ensure_user user_id
  upsert_subscription user_id (activated label expires_at)
  branch (ltb 0 coins)
      (put_coins user_id coins CreditLedgerKind.credit_subscription_grant CreditSource.subscription
        >> pure tt)
      (pure tt))

abbrev cancel : ℕ → Option Subscription → Bank → Bank
cancel user_id none b = b
cancel user_id (some s) b = record b {
  subscriptions =
      insert user_id (record s { status = SubscriptionStatus.canceled }) b.subscriptions;
}

unfoldable pub revoke_subscription : ℕ → Action Bank (Unit {0})
revoke_subscription user_id =
    transaction
      (do ensure_user user_id; sub ← gets (get_subscription user_id); modify (cancel user_id sub))

unfoldable pub set_price : String → ℕ → Bool → Action Bank (Unit {0})
set_price job_type price_coins active = transaction (upsert_price job_type price_coins active)
