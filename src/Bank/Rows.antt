-- ===== src/Bank/Rows.antt =====
-- The rows of app/domain/models/billing.py. UUIDs are numbers, timestamps are milliseconds. Columns
-- that no modelled code reads back (`id`, `category`, `raw`, `created_at`, `updated_at`) are left out.
use text.Mathlib.TextPositions.{eq_refl}
use musicfy.Prelude.{
  ℕ, String, ◌≡◌, refl, Bool, true, false, ◌&&◌, Option, List, Table, arith, ◌==◌, str_eq,
}
use musicfy.Prelude.Int.{ℤ, pos_part, neg_part}
use musicfy.Enums.{
  AuthProvider, CreditSource, CreditLedgerKind, SubscriptionStatus, BillingProvider, ProductKind,
  StoreKitEnvironment,
}

-- What `_as_int` gives for the key: a number, or a `bool`, which Python counts among the numbers and
-- prints by its name.
pub data Stamp : Type 0 where
  number : ℤ → Stamp
  flag : Bool → Stamp

abbrev pub int_eq : ℤ → ℤ → Bool
int_eq a b = pos_part a == pos_part b && neg_part a == neg_part b

abbrev pub stamp_eq : Stamp → Stamp → Bool
stamp_eq (number m) (number n) = int_eq m n
stamp_eq (flag true) (flag true) = true
stamp_eq (flag false) (flag false) = true
stamp_eq _ _ = false

stamp_eq_refl : (s : Stamp) → stamp_eq s s ≡ true
stamp_eq_refl (number m) = ground arith
stamp_eq_refl (flag true) = refl
stamp_eq_refl (flag false) = refl

-- The key of `BillingService._dedup_key`. Each constructor is one of its formats: a fixed word, and
-- fields that the format keeps apart, so that two keys are one text if they are one value.
pub data DedupKey : Type 0 where
  -- `Production:{transaction_id}`, `Sandbox:{transaction_id}`
  production sandbox : String → DedupKey
  -- `Xcode:{user_id}:{transaction_id}:{purchase_date_ms}`
  xcode : ℕ → String → Stamp → DedupKey

abbrev pub dedup_eq : DedupKey → DedupKey → Bool
dedup_eq (production s) (production t) = str_eq s t
dedup_eq (sandbox s) (sandbox t) = str_eq s t
dedup_eq (xcode u s m) (xcode v t n) = u == v && str_eq s t && stamp_eq m n
dedup_eq _ _ = false

pub dedup_eq_refl : (k : DedupKey) → dedup_eq k k ≡ true
dedup_eq_refl (production s) = eq_refl s
dedup_eq_refl (sandbox s) = eq_refl s
dedup_eq_refl (xcode u s m) = ground (arith, eq_refl s, stamp_eq_refl m)

-- The texts that the code writes to `credit_ledger.idempotency_key`, by their prefixes.
pub data Key : Type 0 where
  capture release : ℕ → Key
  -- `charge:lyrics:`, `refund:lyrics:`, `charge:lyrics-assist:`, `refund:lyrics-assist:`
  charge_lyrics refund_lyrics charge_assist refund_assist : String → Key
  purchase : DedupKey → Key
  adapty_txn : String → Key

abbrev pub key_eq : Key → Key → Bool
key_eq (capture i) (capture j) = i == j
key_eq (release i) (release j) = i == j
key_eq (charge_lyrics s) (charge_lyrics t) = str_eq s t
key_eq (refund_lyrics s) (refund_lyrics t) = str_eq s t
key_eq (charge_assist s) (charge_assist t) = str_eq s t
key_eq (refund_assist s) (refund_assist t) = str_eq s t
key_eq (purchase k) (purchase l) = dedup_eq k l
key_eq (adapty_txn s) (adapty_txn t) = str_eq s t
key_eq _ _ = false

pub key_eq_refl : (k : Key) → key_eq k k ≡ true
key_eq_refl (capture i) = ground arith
key_eq_refl (release i) = ground arith
key_eq_refl (charge_lyrics s) = eq_refl s
key_eq_refl (refund_lyrics s) = eq_refl s
key_eq_refl (charge_assist s) = eq_refl s
key_eq_refl (refund_assist s) = eq_refl s
key_eq_refl (purchase k) = dedup_eq_refl k
key_eq_refl (adapty_txn s) = eq_refl s

-- The texts that the code writes to `credit_ledger.ref_type`.
pub data RefType : Type 0 where
  job lyrics lyrics_assist transaction adapty_transaction admin : RefType

-- `coin_wallets`, one row for a user (`uq_coin_wallets_user_id`). Both columns are kept from going
-- below 0 by the table's CHECK constraints.
pub record Wallet : Type 0 where
  pub coins_available : ℕ
  pub coins_reserved : ℕ

-- `credit_ledger`
pub record Entry : Type 0 where
  pub user_id : ℕ
  pub kind : CreditLedgerKind
  pub amount : ℤ
  pub source : Option CreditSource
  pub ref_type : Option RefType
  pub idempotency_key : Option Key

-- `generation_prices`, with `price_coins >= 0` by its CHECK constraint.
pub record Price : Type 0 where
  pub job_type : String
  pub price_coins : ℕ
  pub active : Bool

-- `subscription_state`, one row for a user.
pub record Subscription : Type 0 where
  pub status : SubscriptionStatus
  pub provider : Option BillingProvider
  pub product_external_id : Option String
  pub original_transaction_id : Option String
  pub expires_at : Option ℤ
  pub will_renew : Option Bool

-- `products`; `coins` is `grants["coins"]`, 0 if there is none.
pub record Product : Type 0 where
  pub external_product_id : String
  pub kind : ProductKind
  pub coins : ℕ
  pub active : Bool

-- `purchases`
pub record Purchase : Type 0 where
  pub user_id : ℕ
  pub product_external_id : String
  pub transaction_id : String
  pub original_transaction_id : Option String
  pub environment : StoreKitEnvironment
  pub dedup_key : DedupKey

-- `auth_identities`
pub record Identity : Type 0 where
  pub user_id : ℕ
  pub provider : AuthProvider
  pub subject : String

-- What the billing code reads and writes: the tables, and the journal `adapty_webhook_events`, of
-- which only the unique `event_id` is read back. New ledger entries stand in front.
pub record Bank : Type 0 where
  pub users : List ℕ
  pub identities : List Identity
  pub wallets : Table Wallet
  pub ledger : List Entry
  pub prices : List Price
  pub subscriptions : Table Subscription
  pub products : List Product
  pub purchases : List Purchase
  pub adapty_events : List String
