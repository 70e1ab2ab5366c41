-- ===== src/Adapty/Grants.antt =====
-- The coins and the subscription after an Adapty event
-- (app/domain/services/adapty_webhook_service.py, `_apply` and `_grant_coins`).
use musicfy.Prelude.{
  ℕ, ◌+◌, ◌<◌, String, ◌≡◌, refl, ap, ◌≢◌, ◌⊎◌, inl, inr, true, false, not, ◌&&◌, Option, none,
  some, ◌∷◌, arith, ltb, ◌==◌, str_eq, if◌then◌else◌, Bool-cases, Option-cases, ok, lookup-insert,
}
use musicfy.Json.{Fields}
use musicfy.Adapty.Service.{
  Database, seen, record_event, expire_subscription, activate_subscription, grant, apply_semantics,
  apply, product_for, coins_for, txn_of,
}
use text.Mathlib.TextEquality.{eq_iff}
use musicfy.Billing.{get_by_external_id}
use musicfy.Enums.{SubscriptionStatus}
use musicfy.Platform.{Platform}
use musicfy.Bank.{Bank, Key, Product, upsert_subscription, get_subscription, has_key}
use musicfy.Billing.Ownership.{status_of, status-insert}
use musicfy.Wallet.Balance.{available, available_cong}
use musicfy.Wallet.Audit.{IsAudited, IsAudited-cong}
use musicfy.Adapty.Parser.{Event, Semantics, granting, expiring, noop, classify_event}
use musicfy.Adapty.Journal.{grant_lem, apply_semantics_lem}

module _ (platform : Platform) (fallback : ℕ) (db : Database) where
  -- The coins that a grant gives user `v`: all of them to its own user, if its key is new.
  grant-available :
      (v : ℕ) (e : Event) (u : ℕ) (product : Option Product) (b : Bank)
      → available v (grant platform fallback db e u product b).1 ≡ (
          if v == u && not (has_key (Key.adapty_txn (txn_of e)) b.ledger)
          then available v b + coins_for platform fallback db product
          else available v b)
  unfolding grant available
  grant-available v e u product b = grind (arith, lookup-insert)

  grant-IsAudited :
      (v : ℕ) (e : Event) (u : ℕ) (product : Option Product) (b : Bank)
      → IsAudited v b
      → IsAudited v (grant platform fallback db e u product b).1
  unfolding grant available
  grant-IsAudited v e u product b h = grind (arith, lookup-insert)

  activate_lem :
      (v : ℕ) (e : Event) (u : ℕ) (product : Option Product) (b : Bank)
      → let c = (activate_subscription e u product b).1 in
        ((activate_subscription e u product b).0 ≡ ok tt)
        × (c.wallets ≡ b.wallets)
        × (c.ledger ≡ b.ledger)
        × (available v c ≡ available v b)
        × (status_of (get_subscription u c) ≡ SubscriptionStatus.active)
  unfolding activate_subscription upsert_subscription available
  activate_lem v e u product b = (refl, refl, refl, refl, status-insert u _ b.subscriptions)

  product_for_cong :
      (id : Option String) (b c : Bank)
      → c.products ≡ b.products
      → product_for platform fallback db id c ≡ product_for platform fallback db id b
  product_for_cong none b c e = refl
  product_for_cong (some s) b c e = rw e

  granting_lem :
      (v : ℕ) (e : Event) (u : ℕ) (b : Bank)
      → let c = (apply_semantics platform fallback db granting e u b).1 in
        (available v c ≡ (
          if v == u && not (has_key (Key.adapty_txn (txn_of e)) b.ledger)
          then available v b
            + coins_for platform fallback db
                (product_for platform fallback db e.vendor_product_id b)
          else available v b))
        × (status_of (get_subscription u c) ≡ SubscriptionStatus.active)
  unfolding apply_semantics
  granting_lem v e u b =
      let product = product_for platform fallback db e.vendor_product_id b in
      let c = (activate_subscription e u product b).1 in
      ground (
        arith,
        activate_lem v e u product b,
        grant-available v e u product c,
        grant_lem platform fallback db e u product c,
      )

  pub granting-IsAudited :
      (v : ℕ) (e : Event) (u : ℕ) (b : Bank)
      → IsAudited v b
      → IsAudited v (apply_semantics platform fallback db granting e u b).1
  unfolding apply_semantics
  granting-IsAudited v e u b h =
      let product = product_for platform fallback db e.vendor_product_id b in
      let c = (activate_subscription e u product b).1 in
      let same = activate_lem v e u product b in
      ground (
        arith,
        same,
        grant-IsAudited v e u product c (IsAudited-cong v b c same.1 same.2 h),
        grant_lem platform fallback db e u product c,
      )

  -- A meaning other than `granting` moves no coins and writes no ledger entry.
  pub other_lem :
      (s : Semantics) (e : Event) (u : ℕ) (b : Bank)
      → s ≢ granting
      → let c = (apply_semantics platform fallback db s e u b).1 in
        (c.wallets ≡ b.wallets) × (c.ledger ≡ b.ledger)
  unfolding apply_semantics expire_subscription upsert_subscription
  other_lem granting e u b h = absurd (h refl)
  other_lem expiring e u b h = ground arith
  other_lem noop e u b h = ground arith

  -- The key of an event's payment: its transaction, or else its chain, or else its own id.
  abbrev pub IsTxn : Event → String → Type 0
  IsTxn e t =
      (e.transaction_id ≡ some t)
      ⊎ ((e.transaction_id ≡ none)
          × ((e.original_transaction_id ≡ some t)
              ⊎ ((e.original_transaction_id ≡ none) × (e.event_id ≡ t))))

  -- The product that an id names: none without an id, or for an empty one.
  abbrev pub IsNamed : Option String → Bank → Option Product → Type 0
  IsNamed id b o =
      ((o ≡ none) × ((id ≡ none) ⊎ (id ≡ some "")))
      ⊎ ((s : String) × (id ≡ some s)
          × (str_eq s "" ≡ false)
          × (o ≡ get_by_external_id platform s b))

  -- The coins of a product, where it has any, and the fallback otherwise.
  abbrev pub Earns : Option Product → ℕ → Type 0
  Earns none n = n ≡ fallback
  Earns (some p) n = ((0 < p.coins) × (n ≡ p.coins)) ⊎ ((p.coins ≡ 0) × (n ≡ fallback))

  txn_of-IsTxn : (e : Event) → IsTxn e (txn_of e)
  txn_of-IsTxn e = elim (Option-cases e.transaction_id) [
    | inr (t, p) ↦ inl (ground (arith, p))
    | inl p ↦ elim (Option-cases e.original_transaction_id) [
      | inr (o, q) ↦ inr (p, inl (ground (arith, p, q)))
      | inl q ↦ inr (p, inr (q, ground (arith, p, q)))
    ]
  ]

  product_for-IsNamed :
      (id : Option String) (b : Bank) → IsNamed id b (product_for platform fallback db id b)
  product_for-IsNamed none b = inl (refl, inl refl)
  product_for-IsNamed (some s) b = elim (Bool-cases (str_eq s "")) [
    | inl e ↦ inl (ground (arith, e), inr (ap some (ground (arith, e, eq_iff s ""))))
    | inr e ↦ inr (s, refl, e, ground (arith, e))
  ]

  coins_for-Earns : (o : Option Product) → Earns o (coins_for platform fallback db o)
  coins_for-Earns none = refl
  coins_for-Earns (some p) = elim (Bool-cases (ltb 0 p.coins)) [
    | inl e ↦ inl (ground (arith, e), ground (arith, e))
    | inr e ↦ inr (ground (arith, e), ground (arith, e))
  ]

  apply_granting_lem :
      (v : ℕ) (e : Event) (body : Fields) (u : ℕ) (b : Bank)
      → db.takes_event e body ≡ true
      → db.takes_rows e ≡ true
      → seen e.event_id b.adapty_events ≡ false
      → classify_event e ≡ granting
      → let c = (apply platform fallback db e body u b).1 in
        (available v c ≡ (
          if v == u && not (has_key (Key.adapty_txn (txn_of e)) b.ledger)
          then available v b
            + coins_for platform fallback db
                (product_for platform fallback db e.vendor_product_id b)
          else available v b))
        × (status_of (get_subscription u c) ≡ SubscriptionStatus.active)
  unfolding apply record_event
  apply_granting_lem v e body u b row rows new meaning =
      let d = record b { adapty_events = e.event_id ∷ b.adapty_events } in
      ground (
        arith,
        granting_lem v e u d,
        apply_semantics_lem platform fallback db granting e u d,
        available_cong v b d refl,
        product_for_cong e.vendor_product_id b d refl,
      )

  -- An event that was not seen before, whose rows the database takes, and that grants access leaves its user's subscription active, and
  -- gives that user the coins of the product its id names, or the fallback where there is no such product or
  -- it has none, unless a grant for the same payment is in the ledger: the same transaction, or the same
  -- chain or event where no transaction is given. Nobody else's coins change.
  pub apply_granting :
      (v : ℕ) (e : Event) (body : Fields) (u : ℕ) (b : Bank)
      → db.takes_event e body ≡ true
      → db.takes_rows e ≡ true
      → seen e.event_id b.adapty_events ≡ false
      → classify_event e ≡ granting
      → let c = (apply platform fallback db e body u b).1 in
        ((txn : String) × (product : Option Product) × (coins : ℕ) × IsTxn e txn
          × IsNamed e.vendor_product_id b product
          × Earns product coins
          × (available v c ≡ (
              if v == u && not (has_key (Key.adapty_txn txn) b.ledger)
              then available v b + coins
              else available v b)))
        × (status_of (get_subscription u c) ≡ SubscriptionStatus.active)
  apply_granting v e body u b row rows new meaning =
      let product = product_for platform fallback db e.vendor_product_id b in
      let f = apply_granting_lem v e body u b row rows new meaning in
      (
        (
          txn_of e,
          product,
          coins_for platform fallback db product,
          txn_of-IsTxn e,
          product_for-IsNamed e.vendor_product_id b,
          coins_for-Earns product,
          f.0,
        ),
        f.1,
      )

  -- An event that does not grant access changes nobody's coins and adds nothing to the ledger.
  apply_other :
      (e : Event) (body : Fields) (u : ℕ) (b : Bank)
      → classify_event e ≢ granting
      → let c = (apply platform fallback db e body u b).1 in
        (c.wallets ≡ b.wallets) × (c.ledger ≡ b.ledger)
  unfolding apply record_event
  apply_other e body u b h =
      let d = record b { adapty_events = e.event_id ∷ b.adapty_events } in
      ground (
        arith,
        other_lem (classify_event e) e u d h,
        apply_semantics_lem platform fallback db (classify_event e) e u d,
      )
