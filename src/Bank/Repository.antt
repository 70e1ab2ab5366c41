-- ===== src/Bank/Repository.antt =====
-- `CreditsRepository` and `PricingRepository` (app/domain/repositories/credits.py, pricing.py).
use musicfy.Prelude.{
  ℕ, String, Bool, true, false, ◌&&◌, ◌||◌, not, Option, none, some, List, [], ◌∷◌, lookup, insert,
  find, get_or, ◌==◌, str_eq, if◌then◌else◌, Action, ok, pure, gets, modify, or_raise, ok,
  assertion_failed, ◌>>=◌, ◌>>◌, map,
}
use musicfy.Enums.{SubscriptionStatus}
use musicfy.Bank.Rows.{Key, key_eq, Wallet, Entry, Price, Subscription, Bank}

abbrev pub get_wallet : ℕ → Bank → Option Wallet
get_wallet user_id b = lookup user_id b.wallets

abbrev pub put_wallet : ℕ → Wallet → Bank → Bank
put_wallet user_id w b = record b { wallets = insert user_id w b.wallets }

abbrev pub empty_wallet : Wallet
empty_wallet = record { coins_available = 0; coins_reserved = 0 }

-- The row under FOR UPDATE; it is inserted first if there is none, and read again.
unfoldable pub ensure_wallet : ℕ → Action Bank Wallet
ensure_wallet user_id b = elim (get_wallet user_id b) [
  | some w ↦ pure w b
  | none ↦
      (modify (put_wallet user_id empty_wallet)
          >> (gets (get_wallet user_id) >>= λ found. or_raise found assertion_failed))
        b
]

abbrev pub bears : Key → Option Key → Bool
bears k none = false
bears k (some j) = key_eq k j

abbrev pub has_key : Key → List Entry → Bool
has_key k [] = false
has_key k (e ∷ l) = bears k e.idempotency_key || has_key k l

abbrev pub is_taken : Option Key → List Entry → Bool
is_taken none l = false
is_taken (some k) l = has_key k l

abbrev pub idempotency_exists : Key → Bank → Bool
idempotency_exists k b = has_key k b.ledger

abbrev pub insert_unless : Bool → Entry → Action Bank Bool
insert_unless true e b = (ok false, b)
insert_unless false e b = (ok true, record b { ledger = e ∷ b.ledger })

-- `INSERT ... ON CONFLICT (idempotency_key) DO NOTHING RETURNING`: says if the entry is new.
unfoldable pub append_ledger : Entry → Action Bank Bool
append_ledger e b = insert_unless (is_taken e.idempotency_key b.ledger) e b

-- The newest entries come first.
unfoldable pub list_ledger : ℕ → List Entry → List Entry
list_ledger user_id [] = []
list_ledger user_id (e ∷ l) =
    if e.user_id == user_id then e ∷ list_ledger user_id l else list_ledger user_id l

abbrev pub get_subscription : ℕ → Bank → Option Subscription
get_subscription user_id b = lookup user_id b.subscriptions

abbrev pub empty_subscription : Subscription
empty_subscription = record {
  status = SubscriptionStatus.none;
  provider = none;
  product_external_id = none;
  original_transaction_id = none;
  expires_at = none;
  will_renew = none;
}

-- `INSERT ... ON CONFLICT DO UPDATE SET` of the columns that `set` writes: the others keep the values
-- of the row, or of a new row.
unfoldable pub upsert_subscription : ℕ → (Subscription → Subscription) → Action Bank (Unit {0})
upsert_subscription user_id set b =
    modify
      (λ b. record b {
        subscriptions =
            insert user_id (set (get_or empty_subscription (get_subscription user_id b)))
              b.subscriptions;
      })
      b

abbrev pub is_active : SubscriptionStatus → Bool
is_active SubscriptionStatus.active = true
is_active _ = false

abbrev pub has_otid : String → Option String → Bool
has_otid otid none = false
has_otid otid (some t) = str_eq t otid

-- Other users' active subscriptions on the same Apple chain become expired.
abbrev pub expire_row : String → ℕ → ℕ × Subscription → ℕ × Subscription
expire_row otid except_user_id (user_id, s) =
    if has_otid otid s.original_transaction_id
      && not (user_id == except_user_id)
      && is_active s.status
    then (user_id, record s { status = SubscriptionStatus.expired })
    else (user_id, s)

unfoldable pub expire_foreign_subscriptions : String → ℕ → Action Bank (Unit {0})
expire_foreign_subscriptions otid except_user_id =
    modify (λ b. record b { subscriptions = map (expire_row otid except_user_id) b.subscriptions })

-- `PricingRepository.get_active_price`
unfoldable pub get_active_price : String → Bank → Option ℕ
get_active_price job_type b =
    elim (find (λ (p : Price). str_eq p.job_type job_type && p.active) b.prices) [
      | none ↦ none
      | some p ↦ some p.price_coins
    ]

abbrev pub upsert_row : String → ℕ → Bool → List Price → List Price
upsert_row job_type price_coins active [] =
    record { job_type = job_type; price_coins = price_coins; active = active } ∷ []
upsert_row job_type price_coins active (p ∷ ps) =
    if str_eq p.job_type job_type
    then record p { price_coins = price_coins; active = active } ∷ ps
    else p ∷ upsert_row job_type price_coins active ps

-- `PricingRepository.upsert_price`
unfoldable pub upsert_price : String → ℕ → Bool → Action Bank (Unit {0})
upsert_price job_type price_coins active =
    modify (λ b. record b { prices = upsert_row job_type price_coins active b.prices })
