-- ===== src/Billing/Claims.antt =====
-- A purchase is claimed once (app/domain/services/billing_service.py, repositories/products.py).
use musicfy.Prelude.{
  ℕ, ◌≡◌, refl, true, Option, none, some, List, [], ◌∷◌, map, arith, lookup-insert, ok, is_ok,
}
use musicfy.Enums.{StoreKitEnvironment}
use musicfy.Platform.{Platform}
use musicfy.Bank.{
  expire_foreign_subscriptions, upsert_subscription, Bank, DedupKey, dedup_eq_refl, Purchase,
  Product,
}
use musicfy.Billing.Purchases.{
  record_purchase, reassign_original_transaction, is_claimed, reassign_row, get_by_external_id,
}
use musicfy.Billing.Service.{
  take_over, transfer_subscription_chain, update_subscription_state, Transaction, dedup_key, apply,
  apply_product, apply_claimed, apply_new, purchase_of, grant_coins, applied,
}

pub is_claimed-reassign :
    (k : DedupKey) (otid : _) (e : StoreKitEnvironment) (u : ℕ) (ps : List Purchase)
    → is_claimed k (map (reassign_row otid e u) ps) ≡ is_claimed k ps
is_claimed-reassign k otid e u [] = refl
is_claimed-reassign k otid e u (p ∷ ps) = ground (arith, is_claimed-reassign k otid e u ps)

-- A grant raises nothing, and touches wallets and ledger alone.
pub grant_coins_lem :
    (u : ℕ) (product : Product) (k : DedupKey) (b : Bank)
    → ((grant_coins u product k b).0 ≡ ok tt)
      × ((grant_coins u product k b).1.purchases ≡ b.purchases)
      × ((grant_coins u product k b).1.subscriptions ≡ b.subscriptions)
unfolding grant_coins
grant_coins_lem u product k b = grind (arith, lookup-insert)

module _ (platform : Platform) where
  -- A take-over raises nothing, and leaves coins and claims as they were.
  pub take_over_lem :
      (u : ℕ) (product : Product) (tx : Transaction) (k : DedupKey) (b : Bank)
      → ((take_over platform u product tx b).0 ≡ ok tt)
        × ((take_over platform u product tx b).1.wallets ≡ b.wallets)
        × ((take_over platform u product tx b).1.ledger ≡ b.ledger)
        × (is_claimed k (take_over platform u product tx b).1.purchases ≡ is_claimed k b.purchases)
  unfolding take_over transfer_subscription_chain update_subscription_state
      reassign_original_transaction expire_foreign_subscriptions upsert_subscription
  take_over_lem u product tx k b = grind (arith, is_claimed-reassign)

  pub apply_new_lem :
      (u : ℕ) (product : Product) (tx : Transaction) (k : DedupKey) (b : Bank)
      → ((apply_new platform u product tx b).0 ≡ ok applied)
        × (is_claimed k (apply_new platform u product tx b).1.purchases ≡ is_claimed k b.purchases)
  unfolding apply_new
  apply_new_lem u product tx k b = ground (
    arith,
    take_over_lem u product tx k b,
    grant_coins_lem u product (dedup_key platform u tx) (take_over platform u product tx b).1,
  )

  pub apply_claimed_lem :
      (u : ℕ) (product : Product) (tx : Transaction) (k : DedupKey) (b : Bank)
      → (is_ok (apply_claimed platform u product tx b).0 ≡ true)
        × (is_claimed k (apply_claimed platform u product tx b).1.purchases
            ≡ is_claimed k b.purchases)
  unfolding apply_claimed transfer_subscription_chain update_subscription_state
      reassign_original_transaction expire_foreign_subscriptions upsert_subscription
  apply_claimed_lem u product tx k b = grind (arith, is_claimed-reassign)

  -- No branch raises, so no write is rolled back, and the key of the transaction is taken after it.
  pub apply_product_lem :
      (u : ℕ) (tx : Transaction) (product : Product) (b : Bank)
      → (is_ok (apply_product platform u tx (some product) b).0 ≡ true)
        × (is_claimed
              (dedup_key platform u tx)
              (apply_product platform u tx (some product) b).1.purchases
            ≡ true)
  unfolding apply_product record_purchase
  apply_product_lem u tx product b =
      let k = dedup_key platform u tx in
      let recorded = record b { purchases = purchase_of platform u product tx ∷ b.purchases } in
      ground (
        arith,
        apply_new_lem u product tx k recorded,
        apply_claimed_lem u product tx k b,
        dedup_eq_refl k,
      )

  pub apply_claimed-coins :
      (u : ℕ) (product : Product) (tx : Transaction) (b : Bank)
      → ((apply_claimed platform u product tx b).1.wallets ≡ b.wallets)
        × ((apply_claimed platform u product tx b).1.ledger ≡ b.ledger)
  unfolding apply_claimed transfer_subscription_chain update_subscription_state
      reassign_original_transaction expire_foreign_subscriptions upsert_subscription
  apply_claimed-coins u product tx b = ground arith

  apply_product-coins :
      (u : ℕ) (tx : Transaction) (found : Option Product) (b : Bank)
      → is_claimed (dedup_key platform u tx) b.purchases ≡ true
      → ((apply_product platform u tx found b).1.wallets ≡ b.wallets)
        × ((apply_product platform u tx found b).1.ledger ≡ b.ledger)
  unfolding apply_product record_purchase
  apply_product-coins u tx none b taken = (refl, refl)
  apply_product-coins u tx (some product) b taken =
      ground (arith, apply_claimed-coins u product tx b)

  -- Where the key of the transaction is taken, no call changes the coins of anybody, nor the ledger.
  pub apply-keeps_coins :
      (u : ℕ) (tx : Transaction) (b : Bank)
      → is_claimed (dedup_key platform u tx) b.purchases ≡ true
      → ((apply platform u tx b).1.wallets ≡ b.wallets)
        × ((apply platform u tx b).1.ledger ≡ b.ledger)
  unfolding apply
  apply-keeps_coins u tx b taken =
      grind (arith, apply_product-coins u tx (get_by_external_id platform tx.product_id b) b)
