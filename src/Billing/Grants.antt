-- ===== src/Billing/Grants.antt =====
-- The coins of a purchase (app/domain/services/billing_service.py, `_grant_coins` and its callers).
use musicfy.Prelude.{
  ℕ, ◌+◌, ◌≡◌, ◌⊎◌, refl, true, false, Option, none, some, ◌∷◌, arith, ◌==◌, if◌then◌else◌,
  lookup-insert,
}
use musicfy.Platform.{Platform}
use musicfy.Bank.{Bank, DedupKey, Key, dedup_eq, Product, has_key}
use musicfy.Billing.Purchases.{is_claimed, get_by_external_id, record_purchase}
use musicfy.Billing.Service.{
  Transaction, dedup_key, apply, apply_product, apply_claimed, apply_new, purchase_of, grant_coins,
  take_over,
}
use musicfy.Billing.Claims.{
  take_over_lem, grant_coins_lem, apply_claimed_lem, apply_new_lem, apply_claimed-coins,
}
use musicfy.Wallet.Balance.{available, available_cong}
use musicfy.Wallet.Audit.{IsAudited, IsAudited-cong}

-- Every grant in the ledger has its purchase.
abbrev pub IsBacked : Bank → Type 0
IsBacked b =
    (k : DedupKey) → has_key (Key.purchase k) b.ledger ≡ true → is_claimed k b.purchases ≡ true

grant_coins-available :
    (v u : ℕ) (product : Product) (k : DedupKey) (b : Bank)
    → has_key (Key.purchase k) b.ledger ≡ false
    → available v (grant_coins u product k b).1
      ≡ (if v == u then available v b + product.coins else available v b)
unfolding grant_coins available
grant_coins-available v u product k b fresh = grind (arith, lookup-insert)

grant_coins-has_key :
    (u : ℕ) (product : Product) (j k : DedupKey) (b : Bank)
    → has_key (Key.purchase j) (grant_coins u product k b).1.ledger ≡ true
    → (has_key (Key.purchase j) b.ledger ≡ true) ⊎ (dedup_eq j k ≡ true)
unfolding grant_coins
grant_coins-has_key u product j k b h = grind (arith, lookup-insert)

grant_coins-IsAudited :
    (v u : ℕ) (product : Product) (k : DedupKey) (b : Bank)
    → IsAudited v b
    → IsAudited v (grant_coins u product k b).1
unfolding grant_coins available
grant_coins-IsAudited v u product k b h = grind (arith, lookup-insert)

module _ (platform : Platform) where
  apply_new-available :
      (v u : ℕ) (product : Product) (tx : Transaction) (b : Bank)
      → has_key (Key.purchase (dedup_key platform u tx)) b.ledger ≡ false
      → available v (apply_new platform u product tx b).1
        ≡ (if v == u then available v b + product.coins else available v b)
  unfolding apply_new
  apply_new-available v u product tx b fresh =
      let k = dedup_key platform u tx in
      let c = (take_over platform u product tx b).1 in
      ground (
        arith,
        take_over_lem platform u product tx k b,
        grant_coins-available v u product k c,
        available_cong v b c,
        grant_coins_lem u product k c,
      )

  apply_new-IsAudited :
      (v u : ℕ) (product : Product) (tx : Transaction) (b : Bank)
      → IsAudited v b
      → IsAudited v (apply_new platform u product tx b).1
  unfolding apply_new
  apply_new-IsAudited v u product tx b h =
      let k = dedup_key platform u tx in
      let c = (take_over platform u product tx b).1 in
      ground (
        arith,
        take_over_lem platform u product tx k b,
        grant_coins-IsAudited v u product k c (
            IsAudited-cong v b c (take_over_lem platform u product tx k b).1
              (take_over_lem platform u product tx k b).2 h),
        grant_coins_lem u product k c,
      )

  apply_new-has_key :
      (u : ℕ) (product : Product) (tx : Transaction) (j : DedupKey) (b : Bank)
      → has_key (Key.purchase j) (apply_new platform u product tx b).1.ledger ≡ true
      → (has_key (Key.purchase j) b.ledger ≡ true) ⊎ (dedup_eq j (dedup_key platform u tx) ≡ true)
  unfolding apply_new
  apply_new-has_key u product tx j b h =
      let k = dedup_key platform u tx in
      let c = (take_over platform u product tx b).1 in
      ground (
        arith,
        take_over_lem platform u product tx k b,
        grant_coins-has_key u product j k c,
        grant_coins_lem u product k c,
      )

  -- A transaction that is new, for a product of the catalogue, gives its user exactly the product's
  -- coins and nobody else anything, where every grant in the ledger has its purchase.
  pub apply-available :
      (v u : ℕ) (tx : Transaction) (b : Bank) {product : Product}
      → IsBacked b
      → get_by_external_id platform tx.product_id b ≡ some product
      → is_claimed (dedup_key platform u tx) b.purchases ≡ false
      → available v (apply platform u tx b).1
        ≡ (if v == u then available v b + product.coins else available v b)
  unfolding apply apply_product record_purchase
  apply-available v u tx b {product} backed found free =
      let c = record b { purchases = purchase_of platform u product tx ∷ b.purchases } in
      ground (
        arith,
        backed (dedup_key platform u tx),
        apply_new_lem platform u product tx (dedup_key platform u tx) c,
        apply_new-available v u product tx c,
        available_cong v b c refl,
      )

  apply_product-IsBacked :
      (u : ℕ) (tx : Transaction) (found : Option Product) (b : Bank)
      → IsBacked b
      → IsBacked (apply_product platform u tx found b).1
  unfolding apply_product record_purchase
  apply_product-IsBacked u tx none b backed k h = backed k h
  apply_product-IsBacked u tx (some product) b backed k h =
      let c = record b { purchases = purchase_of platform u product tx ∷ b.purchases } in
      ground (
        arith,
        backed k,
        apply_new_lem platform u product tx k c,
        apply_new-has_key u product tx k c,
        apply_claimed_lem platform u product tx k b,
        apply_claimed-coins platform u product tx b,
      )

  apply_product-IsAudited :
      (v u : ℕ) (tx : Transaction) (found : Option Product) (b : Bank)
      → IsAudited v b
      → IsAudited v (apply_product platform u tx found b).1
  unfolding apply_product record_purchase
  apply_product-IsAudited v u tx none b h = h
  apply_product-IsAudited v u tx (some product) b h =
      let c = record b { purchases = purchase_of platform u product tx ∷ b.purchases } in
      let d = (apply_claimed platform u product tx b).1 in
      let same = apply_claimed-coins platform u product tx b in
      ground (
        arith,
        apply_new-IsAudited v u product tx c (IsAudited-cong v b c refl refl h),
        IsAudited-cong v b d same.0 same.1 h,
      )

  -- After any transaction every grant in the ledger still has its purchase.
  apply-IsBacked :
      (u : ℕ) (tx : Transaction) (b : Bank) → IsBacked b → IsBacked (apply platform u tx b).1
  unfolding apply
  apply-IsBacked u tx b backed k =
      let found = get_by_external_id platform tx.product_id b in
      ground (arith, backed k, apply_product-IsBacked u tx found b backed k)

  -- After any transaction the available coins of every user are still what the ledger says.
  pub apply-IsAudited :
      (v u : ℕ) (tx : Transaction) (b : Bank)
      → IsAudited v b
      → IsAudited v (apply platform u tx b).1
  unfolding apply
  apply-IsAudited v u tx b h =
      let found = get_by_external_id platform tx.product_id b in
      ground (arith, apply_product-IsAudited v u tx found b h)
