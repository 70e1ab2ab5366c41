-- ===== src/Billing/Ownership.antt =====
-- Who owns a purchase, and how a subscription's chain moves to another user
-- (app/domain/services/billing_service.py, `_apply` and `_transfer_subscription_chain`).
use musicfy.Prelude.{
  ℕ, String, ◌≡◌, refl, inl, inr, Bool, true, false, ◌&&◌, Option, none, some, List, [], ◌∷◌, map,
  arith, ◌==◌, if◌then◌else◌, Bool-cases, get_or, ok, Table, lookup, insert, lookup-insert,
}
use musicfy.Enums.{StoreKitEnvironment, SubscriptionStatus}
use musicfy.Platform.{Platform}
use musicfy.Bank.{
  Bank, Purchase, Product, Subscription, has_otid, is_active, expire_row, get_subscription,
  expire_foreign_subscriptions, upsert_subscription,
}
use musicfy.Billing.Purchases.{
  is_claimed, in_chain, reassign_row, env_eq, get_by_external_id, record_purchase,
  find_owner_by_dedup_key, reassign_original_transaction,
}
use musicfy.Billing.Service.{
  Transaction, dedup_key, apply, apply_product, apply_claimed, apply_new, take_over, purchase_of,
  is_subscription, transfer_subscription_chain, update_subscription_state, environment_of, is_user,
  deduplicated, transaction_already_claimed,
}
use musicfy.Billing.Claims.{grant_coins_lem, apply_product_lem}

-- Every purchase of the chain, in this environment, is the user's.
abbrev pub OwnsChain : String → StoreKitEnvironment → ℕ → List Purchase → Type 0
OwnsChain otid e u [] = Unit
OwnsChain otid e u (p ∷ ps) = (in_chain otid e p ≡ true → p.user_id ≡ u) × OwnsChain otid e u ps

-- No other user's subscription on the chain is active.
abbrev pub OnlyActive : String → ℕ → Table Subscription → Type 0
OnlyActive otid u [] = Unit
OnlyActive otid u ((v, s) ∷ t) =
    (has_otid otid s.original_transaction_id ≡ true → is_active s.status ≡ true → v ≡ u)
    × OnlyActive otid u t

reassign-OwnsChain :
    (otid : String) (e : StoreKitEnvironment) (u : ℕ) (ps : List Purchase)
    → OwnsChain otid e u (map (reassign_row otid e u) ps)
reassign-OwnsChain otid e u [] = tt
reassign-OwnsChain otid e u (p ∷ ps) = ground (arith, reassign-OwnsChain otid e u ps)

expire-OnlyActive :
    (otid : String) (u : ℕ) (t : Table Subscription) → OnlyActive otid u (map (expire_row otid u) t)
expire-OnlyActive otid u [] = tt
expire-OnlyActive otid u ((v, s) ∷ t) = ground (arith, expire-OnlyActive otid u t)

insert-OnlyActive :
    (otid : String) (u : ℕ) (s : Subscription) (t : Table Subscription)
    → OnlyActive otid u t
    → OnlyActive otid u (insert u s t)
insert-OnlyActive otid u s [] h = ((λ _ _. refl), tt)
insert-OnlyActive otid u s ((v, r) ∷ t) h = ground (arith, insert-OnlyActive otid u s t h.1)

abbrev pub status_of : Option Subscription → SubscriptionStatus
status_of none = SubscriptionStatus.none
status_of (some s) = s.status

pub status-insert :
    (u : ℕ) (s : Subscription) (t : Table Subscription)
    → status_of (lookup u (insert u s t)) ≡ s.status
status-insert u s t = ground (arith, lookup-insert u u s t)

-- Whether a subscription is active on the chain.
abbrev pub holds : String → Option Subscription → Bool
holds otid none = false
holds otid (some s) = has_otid otid s.original_transaction_id && is_active s.status

-- The status of `v`'s subscription after the chain went to `u`, by what it was before.
abbrev pub status_after : String → ℕ → ℕ → Option Subscription → SubscriptionStatus
status_after otid u v before =
    if v == u
    then SubscriptionStatus.active
    else if holds otid before
    then SubscriptionStatus.expired
    else status_of before

status-expired :
    (otid : String) (u v : ℕ) (t : Table Subscription)
    → (v == u) ≡ false
    → status_of (lookup v (map (expire_row otid u) t)) ≡ status_after otid u v (lookup v t)
status-expired otid u v [] other = ground arith
status-expired otid u v ((w, s) ∷ t) other = ground (arith, status-expired otid u v t other)

status_after_lem :
    (otid : String) (u v : ℕ) (s : Subscription) (t : Table Subscription)
    → s.status ≡ SubscriptionStatus.active
    → status_of (lookup v (insert u s (map (expire_row otid u) t)))
      ≡ status_after otid u v (lookup v t)
status_after_lem otid u v s t active = elim (Bool-cases (v == u)) [
  | inl e ↦ ground (arith, e, lookup-insert v u s (map (expire_row otid u) t))
  | inr e ↦
      ground
        (arith, e, lookup-insert v u s (map (expire_row otid u) t), status-expired otid u v t e)
]

-- The user owns the chain of the transaction and holds the only active subscription on it; of any user
-- `v` the subscription is active for the buyer, expired where it was another's and active on the chain,
-- and of the status it had in `before` for the rest.
abbrev pub HasTakenOver : ℕ → ℕ → Transaction → Bank → Bank → Type 0
HasTakenOver v u tx before b =
    let otid = get_or tx.transaction_id tx.original_transaction_id in
    OwnsChain otid (environment_of tx) u b.purchases
    × OnlyActive otid u b.subscriptions
    × (status_of (get_subscription v b) ≡ status_after otid u v (get_subscription v before))

HasTakenOver-cong :
    (v u : ℕ) (tx : Transaction) (before b c : Bank)
    → c.purchases ≡ b.purchases
    → c.subscriptions ≡ b.subscriptions
    → HasTakenOver v u tx before b
    → HasTakenOver v u tx before c
HasTakenOver-cong v u tx before b c e f h = rw (e, f) h

module _ (platform : Platform) where
  -- The bank after the chain has moved to the user.
  abbrev moved : ℕ → Product → Transaction → Bank → Bank
  moved u product tx b =
      (update_subscription_state platform u product tx (transfer_subscription_chain u tx b).1).1

  moved-HasTakenOver :
      (v u : ℕ) (product : Product) (tx : Transaction) (b : Bank)
      → HasTakenOver v u tx b (moved u product tx b)
  unfolding transfer_subscription_chain update_subscription_state reassign_original_transaction
      expire_foreign_subscriptions upsert_subscription
  moved-HasTakenOver v u product tx b =
      let otid = get_or tx.transaction_id tx.original_transaction_id in
      let t = map (expire_row otid u) b.subscriptions in
      (
        reassign-OwnsChain otid (environment_of tx) u b.purchases,
        insert-OnlyActive otid u _ t (expire-OnlyActive otid u b.subscriptions),
        status_after_lem otid u v _ b.subscriptions refl,
      )

  module _ (u : ℕ) (product : Product) (tx : Transaction) (sub : is_subscription product ≡ true)
      (env : env_eq (environment_of tx) StoreKitEnvironment.xcode ≡ false) where
    apply_claimed-moved :
        (b : Bank)
        → is_user u (find_owner_by_dedup_key (dedup_key platform u tx) b) ≡ false
        → (apply_claimed platform u product tx b).1 ≡ moved u product tx b
    unfolding apply_claimed transfer_subscription_chain update_subscription_state
        reassign_original_transaction expire_foreign_subscriptions upsert_subscription
    apply_claimed-moved b foreign = ground arith

    take_over-moved : (b : Bank) → take_over platform u product tx b ≡ (ok tt, moved u product tx b)
    unfolding take_over transfer_subscription_chain update_subscription_state
        reassign_original_transaction expire_foreign_subscriptions upsert_subscription
    take_over-moved b = ground arith

    apply_new-moved :
        (b : Bank)
        → ((apply_new platform u product tx b).1.purchases ≡ (moved u product tx b).purchases)
          × ((apply_new platform u product tx b).1.subscriptions
              ≡ (moved u product tx b).subscriptions)
    unfolding apply_new
    apply_new-moved b =
        let k = dedup_key platform u tx in
        ground (arith, take_over-moved b, grant_coins_lem u product k (moved u product tx b))

    apply_product-HasTakenOver :
        (v : ℕ) (b : Bank)
        → is_user u (find_owner_by_dedup_key (dedup_key platform u tx) b) ≡ false
        → HasTakenOver v u tx b (apply_product platform u tx (some product) b).1
    unfolding apply_product record_purchase
    apply_product-HasTakenOver v b foreign =
        let c = record b { purchases = purchase_of platform u product tx ∷ b.purchases } in
        let new = apply_new-moved c in
        let old = apply_claimed-moved b foreign in
        elim (Bool-cases (is_claimed (dedup_key platform u tx) b.purchases)) [
          | inl taken ↦
              HasTakenOver-cong v u tx b (moved u product tx b)
                (apply_product platform u tx (some product) b).1 (ground (arith, old))
                (ground (arith, old)) (moved-HasTakenOver v u product tx b)
          | inr free ↦
              HasTakenOver-cong v u tx b (moved u product tx c)
                (apply_product platform u tx (some product) b).1 (ground (arith, new))
                (ground (arith, new)) (moved-HasTakenOver v u product tx c)
        ]

  -- A subscription bought in Production or Sandbox whose key is free, or is another's, ends with its
  -- user owning the whole chain in that environment and holding the only active subscription on it. The
  -- status of that user's subscription is active, that of another user who was active on the chain is
  -- expired, and that of every other user is what it was.
  pub apply-HasTakenOver :
      (v u : ℕ) (tx : Transaction) (b : Bank) {product : Product}
      → get_by_external_id platform tx.product_id b ≡ some product
      → is_subscription product ≡ true
      → env_eq (environment_of tx) StoreKitEnvironment.xcode ≡ false
      → is_user u (find_owner_by_dedup_key (dedup_key platform u tx) b) ≡ false
      → HasTakenOver v u tx b (apply platform u tx b).1
  unfolding apply
  apply-HasTakenOver v u tx b {product} found sub env foreign =
      let done = apply_product-HasTakenOver u product tx sub env v b foreign in
      let raised = apply_product_lem platform u tx product b in
      HasTakenOver-cong v u tx b (apply_product platform u tx (some product) b).1
        (apply platform u tx b).1 (ground (arith, raised)) (ground (arith, raised)) done

  -- A pack whose key is another's is refused, and the user's own again is acknowledged; neither
  -- writes anything.
  apply_claimed_pack :
      (u : ℕ) (tx : Transaction) (b : Bank) {product : Product}
      → get_by_external_id platform tx.product_id b ≡ some product
      → is_subscription product ≡ false
      → is_claimed (dedup_key platform u tx) b.purchases ≡ true
      → apply platform u tx b ≡ (
        ok (
            if is_user u (find_owner_by_dedup_key (dedup_key platform u tx) b)
            then deduplicated
            else transaction_already_claimed),
        b,
      )
  unfolding apply apply_product record_purchase apply_claimed
  apply_claimed_pack u tx b {product} found pack taken = ground arith
