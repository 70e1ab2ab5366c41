-- ===== src/Adapty/Service.antt =====
-- `AdaptyWebhookService` (app/domain/services/adapty_webhook_service.py) and `resolve_webhook_user`
-- (webhook_user_resolve.py). The log is left out, but for the choice of its level.
use musicfy.Prelude.{
  ℕ, ◌+◌, String, Bool, true, false, ◌&&◌, ◌||◌, Option, none, some, List, [], ◌∷◌, ltb, ◌==◌,
  str_eq, if◌then◌else◌, get_or, Error, ok, Action, pure, raise, gets, modify, transaction, branch,
  ◌>>=◌, ◌>>◌, insert, runtime_error,
}
use musicfy.Prelude.Int.{pos}
use musicfy.Enums.{
  AuthProvider, CreditLedgerKind, CreditSource, SubscriptionStatus, BillingProvider,
}
use musicfy.Platform.{Platform}
use musicfy.Json.{Json, Fields}
use musicfy.Bank.{
  Bank, Identity, Key, RefType, Product, Subscription, ensure_wallet, append_ledger, put_wallet,
  upsert_subscription, get_subscription,
}
use musicfy.Billing.{get_by_external_id}
use musicfy.Wallet.{entry}
use musicfy.Adapty.Parser.{
  Event, Semantics, granting, expiring, noop, classify_event, is_known, parse_event, parse_event_id,
  parse_event_type, parse_customer_user_id,
}

-- What `json.loads` made of the raw body.
pub data Body : Type 0 where
  empty_body invalid_json : Body
  parsed : Json → Body

-- `WebhookOutcome`: an `ignored` with its reason, or with the type of an unknown event.
pub data Outcome : Type 0 where
  ignored : String → Outcome
  unknown : String → Outcome
  duplicate applied : Outcome

pub data Level : Type 0 where
  debug info warning : Level

-- `_level_for`
abbrev pub level_for : Outcome → Level
level_for applied = info
level_for duplicate = info
level_for (ignored reason) =
    if str_eq reason "user_not_found" || str_eq reason "missing_customer_user_id"
    then warning
    else if str_eq reason "empty_body"
    then debug
    else info
level_for (unknown _) = warning

pub data ResolvedVia : Type 0 where
  user_id device_id : ResolvedVia

abbrev pub mem : ℕ → List ℕ → Bool
mem u [] = false
mem u (v ∷ vs) = if u == v then true else mem u vs

abbrev pub is_device : AuthProvider → Bool
is_device AuthProvider.apple = false
is_device AuthProvider.guest = true
is_device AuthProvider.device = true

abbrev least : ℕ → Option ℕ → ℕ
least u none = u
least u (some v) = if ltb v u then v else u

abbrev pub seen : String → List String → Bool
seen s [] = false
seen s (t ∷ ts) = if str_eq s t then true else seen s ts

abbrev claim_unless : Bool → String → Action Bank Bool
claim_unless true event_id b = (ok false, b)
claim_unless false event_id b = (ok true, record b { adapty_events = event_id ∷ b.adapty_events })

-- What the database takes. It raises `DataError` for anything else.
pub record Database : Type 0 where
  -- whether the event's row is one: its texts fit the columns, and the body casts to JSONB
  pub takes_event : Event → Fields → Bool
  -- whether the values of the event that a subscription or the ledger keeps fit their columns
  pub takes_rows : Event → Bool

abbrev pub data_error : Error
data_error = runtime_error "DataError"

-- The statement is evaluated before its conflict is seen.
abbrev insert_event : Bool → String → Action Bank Bool
insert_event true event_id b = claim_unless (seen event_id b.adapty_events) event_id b
insert_event false event_id b = raise data_error b

-- `INSERT INTO adapty_webhook_events ... ON CONFLICT DO NOTHING RETURNING`
unfoldable pub record_event : Database → Event → Fields → Action Bank Bool
record_event db e body = insert_event (db.takes_event e body) e.event_id

-- The refusal of what the event's meaning writes.
abbrev pub fit_columns : Database → Semantics → Event → Action Bank (Unit {0})
fit_columns db noop e = pure tt
fit_columns db _ e = branch (db.takes_rows e) (pure tt) (raise data_error)

abbrev pub present : Option Bool → Option Bool → Option Bool
present none old = old
present (some b) old = some b

abbrev ended_status : String → SubscriptionStatus
ended_status event_type =
    if str_eq event_type "subscription_expired"
    then SubscriptionStatus.expired
    else SubscriptionStatus.canceled

abbrev expire_found : Event → ℕ → Option Subscription → Action Bank (Unit {0})
expire_found e u none = upsert_subscription u (λ s. record s {
  status = ended_status e.event_type;
  provider = some BillingProvider.adapty;
  will_renew = e.will_renew;
})
expire_found e u (some sub) = modify (λ b. record b {
  subscriptions =
      insert u
        (record sub {
          status = ended_status e.event_type;
          will_renew = present e.will_renew sub.will_renew;
        })
        b.subscriptions;
})

-- `_expire_subscription`
unfoldable pub expire_subscription : Event → ℕ → Action Bank (Unit {0})
expire_subscription e u = do sub ← gets (get_subscription u); expire_found e u sub

abbrev product_id_of : Event → Option Product → Option String
product_id_of e none = e.vendor_product_id
product_id_of e (some p) = some p.external_product_id

-- `_activate_subscription`
unfoldable pub activate_subscription : Event → ℕ → Option Product → Action Bank (Unit {0})
activate_subscription e u product = upsert_subscription u (λ s. record {
  status = SubscriptionStatus.active;
  provider = some BillingProvider.adapty;
  product_external_id = product_id_of e product;
  original_transaction_id = e.original_transaction_id;
  expires_at = e.expires_at;
  will_renew = e.will_renew;
})

-- The key of the grant: one for each paid period.
abbrev pub txn_of : Event → String
txn_of e = get_or (get_or e.event_id e.original_transaction_id) e.transaction_id

module _ (platform : Platform) (fallback_coins_grant : ℕ) (db : Database) where
  open platform use {lower, show_uuid}

  -- The device's user: the least `user_id` among the guest and device identities whose subject is
  -- the id, in lower case.
  abbrev pub device_user : String → List Identity → Option ℕ
  device_user x [] = none
  device_user x (i ∷ is) =
      let rest = device_user x is in
      if str_eq (lower i.subject) x && is_device i.provider
      then some (least i.user_id rest)
      else rest

  abbrev via_device : Option ℕ → Option (ℕ × ResolvedVia)
  via_device none = none
  via_device (some u) = some (u, device_id)

  -- `resolve_webhook_user`
  unfoldable pub resolve_webhook_user : ℕ → Bank → Option (ℕ × ResolvedVia)
  resolve_webhook_user external_id b =
      if mem external_id b.users
      then some (external_id, user_id)
      else via_device (device_user (show_uuid external_id) b.identities)

  -- `_product_for`
  abbrev pub product_for : Option String → Bank → Option Product
  product_for none b = none
  product_for (some s) b = if str_eq s "" then none else get_by_external_id platform s b

  -- `_coins_for`
  abbrev pub coins_for : Option Product → ℕ
  coins_for none = fallback_coins_grant
  coins_for (some p) = if ltb 0 p.coins then p.coins else fallback_coins_grant

  abbrev add_coins : Bool → ℕ → ℕ → Action Bank (Unit {0})
  add_coins false u coins b = pure tt b
  add_coins true u coins b =
      (do
        wallet ← ensure_wallet u
        modify (put_wallet u (record wallet { coins_available = wallet.coins_available + coins })))
        b

  -- `_grant_coins`
  unfoldable pub grant : Event → ℕ → Option Product → Action Bank (Unit {0})
  unfolding append_ledger ensure_wallet
  grant e u product = branch (coins_for product == 0) (pure tt) (do
    newly ← append_ledger (record (entry u CreditLedgerKind.credit_subscription_grant) {
      amount = pos (coins_for product);
      source = some CreditSource.subscription;
      ref_type = some RefType.adapty_transaction;
      idempotency_key = some (Key.adapty_txn (txn_of e));
    })
    add_coins newly u (coins_for product))

  -- What `_apply` does with an event that was not seen before, by its meaning.
  unfoldable pub apply_semantics : Semantics → Event → ℕ → Action Bank (Unit {0})
  apply_semantics granting e u = do
    product ← gets (product_for e.vendor_product_id)
    activate_subscription e u product
    grant e u product
  apply_semantics expiring e u = expire_subscription e u
  apply_semantics noop e u = pure tt

  -- `_apply`
  unfoldable pub apply : Event → Fields → ℕ → Action Bank Outcome
  apply e body u = do
    inserted ← record_event db e body
    branch inserted
        (do
          fit_columns db (classify_event e) e
          apply_semantics (classify_event e) e u
          pure applied)
        (pure duplicate)

  abbrev pub dispatch :
      String → String → ℕ → Fields → Option (ℕ × ResolvedVia) → Action Bank Outcome
  dispatch event_id event_type external_id body none = pure (ignored "user_not_found")
  dispatch event_id event_type external_id body (some (u, via)) =
      branch (is_known event_type)
        (apply (parse_event platform event_id event_type external_id body) body u)
        (pure (unknown event_type))

  abbrev pub identified : String → String → Option ℕ → Fields → Action Bank Outcome
  identified event_id event_type none body = pure (ignored "missing_customer_user_id")
  identified event_id event_type (some external_id) body = transaction (do
    resolved ← gets (resolve_webhook_user external_id)
    dispatch event_id event_type external_id body resolved)

  abbrev pub with_event_id : Option String → Fields → Action Bank Outcome
  with_event_id none body = pure (ignored "missing_event_id")
  with_event_id (some event_id) body =
      identified event_id (parse_event_type platform body) (parse_customer_user_id platform body)
        body

  abbrev pub with_object : Json → Action Bank Outcome
  with_object (Json.obj body) = with_event_id (parse_event_id platform body) body
  with_object _ = pure (ignored "not_an_object")

  -- `handle`
  unfoldable pub handle : Body → Action Bank Outcome
  handle empty_body = pure (ignored "empty_body")
  handle invalid_json = pure (ignored "invalid_json")
  handle (parsed j) = with_object j
