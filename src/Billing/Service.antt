-- ===== src/Billing/Service.antt =====
-- `BillingService` (app/domain/services/billing_service.py). What the verifier has decoded is the
-- input; the signature checks themselves are not modelled.
use musicfy.Prelude.{
  ℕ, ◌+◌, ◌/◌, String, Bool, true, false, ◌&&◌, ◌||◌, not, Option, none, some, get_or, ◌==◌, str_eq,
  if◌then◌else◌, Action, pure, gets, modify, transaction, ◌>>=◌, ◌>>◌, ok, insert, branch,
}
use musicfy.Prelude.Int.{ℤ, pos, negsuc, neg}
use musicfy.Enums.{
  CreditLedgerKind, CreditSource, ProductKind, StoreKitEnvironment, SubscriptionStatus,
  BillingProvider,
}
use musicfy.Platform.{Platform}
use musicfy.Json.{Json}
use musicfy.Bank.{
  DedupKey, Stamp, number, flag, Key, RefType, Product, Purchase, Subscription, Bank, ensure_wallet,
  append_ledger, put_wallet, upsert_subscription, expire_foreign_subscriptions, get_subscription,
}
use musicfy.Billing.Purchases.{
  get_by_external_id, record_purchase, find_owner_by_dedup_key, reassign_original_transaction,
  find_user_by_original_transaction, env_eq,
}
use musicfy.Wallet.{entry}

-- What `decode_transaction` returns, as far as the service reads it.
pub record Transaction : Type 0 where
  pub transaction_id : String
  pub original_transaction_id : Option String
  pub product_id : String
  pub environment : String
  pub purchase_date_ms : Json
  pub expires_date_ms : Json

-- The answers of the service: `status`, `reason`, `deduplicated`, `action`.
pub data Answer : Type 0 where
  ignored : String → Answer
  applied deduplicated subscription_transferred : Answer
  transaction_already_claimed : Answer
  revoked : String → Answer

-- `_environment`: what is not known counts as Production.
unfoldable pub environment_of : Transaction → StoreKitEnvironment
environment_of tx =
    if str_eq tx.environment "Sandbox"
    then StoreKitEnvironment.sandbox
    else if str_eq tx.environment "Xcode"
    then StoreKitEnvironment.xcode
    else StoreKitEnvironment.production

-- `product.kind in SUBSCRIPTION_KINDS`
abbrev pub is_subscription : Product → Bool
is_subscription p = elim p.kind [ ProductKind.subscription ↦ true | _ ↦ false ]

-- `_transfer_subscription_chain`
unfoldable pub transfer_subscription_chain : ℕ → Transaction → Action Bank (Unit {0})
unfolding reassign_original_transaction expire_foreign_subscriptions
transfer_subscription_chain user_id tx = do
  let otid = get_or tx.transaction_id tx.original_transaction_id
  reassign_original_transaction otid (environment_of tx) user_id
  expire_foreign_subscriptions otid user_id

abbrev add_coins : Bool → ℕ → ℕ → Action Bank (Unit {0})
add_coins false user_id coins b = pure tt b
add_coins true user_id coins b =
    (do
      wallet ← ensure_wallet user_id
      modify
          (put_wallet user_id (record wallet { coins_available = wallet.coins_available + coins })))
      b

abbrev grant_kind : Bool → CreditLedgerKind
grant_kind true = CreditLedgerKind.credit_subscription_grant
grant_kind false = CreditLedgerKind.credit_purchase

abbrev grant_source : Bool → CreditSource
grant_source true = CreditSource.subscription
grant_source false = CreditSource.purchase

-- `_grant_coins`
unfoldable pub grant_coins : ℕ → Product → DedupKey → Action Bank (Unit {0})
unfolding append_ledger ensure_wallet
grant_coins user_id product key = branch (product.coins == 0) (pure tt) (do
  newly ← append_ledger (record (entry user_id (grant_kind (is_subscription product))) {
    amount = pos product.coins;
    source = some (grant_source (is_subscription product));
    ref_type = some RefType.transaction;
    idempotency_key = some (Key.purchase key);
  })
  add_coins newly user_id product.coins)

abbrev pub is_user : ℕ → Option ℕ → Bool
is_user user_id none = false
is_user user_id (some u) = u == user_id

abbrev revoked_status : String → SubscriptionStatus
revoked_status note_type =
    if str_eq note_type "EXPIRED" then SubscriptionStatus.expired else SubscriptionStatus.canceled

abbrev set_status : ℕ → SubscriptionStatus → Option Subscription → Action Bank (Unit {0})
set_status user_id status none b = pure tt b
set_status user_id status (some sub) b = (
  ok tt,
  record b { subscriptions = insert user_id (record sub { status = status }) b.subscriptions },
)

-- `_handle_revocation`; the answer carries the lower-case name of the type.
unfoldable pub handle_revocation : ℕ → String → Action Bank Answer
handle_revocation user_id note_type = transaction (do
  sub ← gets (get_subscription user_id)
  set_status user_id (revoked_status note_type) sub
  pure (revoked note_type))

-- `int(n)` of a number in millionths.
abbrev pub truncate : ℤ → ℤ
truncate (pos n) = pos (n / 1000000)
truncate (negsuc n) = neg ((n + 1) / 1000000)

module _ (platform : Platform) where
  open platform use {parse_int, from_timestamp, upper}

  -- `_as_int`
  abbrev pub as_int : Json → Stamp
  as_int (Json.int n) = number n
  as_int (Json.bool b) = flag b
  as_int (Json.str s) = number (get_or (pos 0) (parse_int s))
  as_int _ = number (pos 0)

  abbrev date_of : Option ℤ → Option ℤ
  date_of none = none
  date_of (some n) = from_timestamp n

  -- `_ms_to_dt`
  abbrev pub ms_to_dt : Json → Option ℤ
  ms_to_dt Json.null = none
  ms_to_dt (Json.bool true) = from_timestamp (pos 1)
  ms_to_dt (Json.bool false) = from_timestamp (pos 0)
  ms_to_dt (Json.int n) = from_timestamp n
  ms_to_dt (Json.float d) = from_timestamp (truncate d)
  ms_to_dt (Json.str s) = date_of (parse_int s)
  ms_to_dt (Json.arr _) = none
  ms_to_dt (Json.obj _) = none

  abbrev key_in : StoreKitEnvironment → ℕ → Transaction → DedupKey
  key_in StoreKitEnvironment.production user_id tx = DedupKey.production tx.transaction_id
  key_in StoreKitEnvironment.sandbox user_id tx = DedupKey.sandbox tx.transaction_id
  key_in StoreKitEnvironment.xcode user_id tx =
      DedupKey.xcode user_id tx.transaction_id (as_int tx.purchase_date_ms)

  -- `_dedup_key`
  unfoldable pub dedup_key : ℕ → Transaction → DedupKey
  dedup_key user_id tx = key_in (environment_of tx) user_id tx

  -- `_update_subscription_state`: `will_renew` keeps its value.
  unfoldable pub update_subscription_state : ℕ → Product → Transaction → Action Bank (Unit {0})
  unfolding upsert_subscription
  update_subscription_state user_id product tx = upsert_subscription user_id (λ s. record s {
    status = SubscriptionStatus.active;
    provider = some BillingProvider.apple;
    product_external_id = some product.external_product_id;
    original_transaction_id = tx.original_transaction_id;
    expires_at = ms_to_dt tx.expires_date_ms;
  })

  -- `_apply` where the key was taken: another's purchase of a subscription moves to the user, another's
  -- pack is refused, and the user's own is a repetition.
  unfoldable pub apply_claimed : ℕ → Product → Transaction → Action Bank Answer
  apply_claimed user_id product tx = do
    owner ← gets (find_owner_by_dedup_key (dedup_key user_id tx))
    branch (not (is_user user_id owner))
        (branch
          (is_subscription product && not (env_eq (environment_of tx) StoreKitEnvironment.xcode))
          (do
            transfer_subscription_chain user_id tx
            update_subscription_state user_id product tx
            pure subscription_transferred)
          (pure transaction_already_claimed))
        (branch (is_subscription product) (update_subscription_state user_id product tx) (pure tt)
          >> pure deduplicated)

  -- The part of `_apply` for a recorded purchase that only a subscription runs.
  unfoldable pub take_over : ℕ → Product → Transaction → Action Bank (Unit {0})
  take_over user_id product tx =
      branch (is_subscription product)
        (branch (not (env_eq (environment_of tx) StoreKitEnvironment.xcode))
            (transfer_subscription_chain user_id tx) (pure tt)
          >> update_subscription_state user_id product tx)
        (pure tt)

  -- `_apply` where the purchase was recorded.
  unfoldable pub apply_new : ℕ → Product → Transaction → Action Bank Answer
  apply_new user_id product tx = do
    take_over user_id product tx
    grant_coins user_id product (dedup_key user_id tx)
    pure applied

  abbrev pub purchase_of : ℕ → Product → Transaction → Purchase
  purchase_of user_id product tx = record {
    user_id = user_id;
    product_external_id = product.external_product_id;
    transaction_id = tx.transaction_id;
    original_transaction_id = tx.original_transaction_id;
    environment = environment_of tx;
    dedup_key = dedup_key user_id tx;
  }

  -- `_apply` for a product that is in the catalogue.
  unfoldable pub apply_product : ℕ → Transaction → Option Product → Action Bank Answer
  apply_product user_id tx none = pure (ignored "unknown_product")
  apply_product user_id tx (some product) = do
    newly ← record_purchase (purchase_of user_id product tx)
    branch newly (apply_new user_id product tx) (apply_claimed user_id product tx)

  -- `_apply`
  unfoldable pub apply : ℕ → Transaction → Action Bank Answer
  apply user_id tx = transaction (do
    product ← gets (get_by_external_id platform tx.product_id)
    apply_product user_id tx product)

  -- `verify_and_apply_transaction`, after the verifier.
  unfoldable pub verify_and_apply_transaction : ℕ → Transaction → Action Bank Answer
  verify_and_apply_transaction user_id tx =
      branch (str_eq tx.transaction_id "" || str_eq tx.product_id "")
        (pure (ignored "incomplete_transaction")) (apply user_id tx)

  abbrev pub is_revocation : String → Bool
  is_revocation note_type =
      str_eq note_type "REFUND" || str_eq note_type "REVOKE" || str_eq note_type "EXPIRED"

  abbrev apply_to : Option ℕ → Transaction → String → Action Bank Answer
  apply_to none tx note_type = pure (ignored "unknown_user")
  apply_to (some user_id) tx note_type =
      branch (is_revocation note_type) (handle_revocation user_id note_type) (apply user_id tx)

  -- `apply_notification`, after the verifier: the notification's type and its transaction.
  unfoldable pub apply_notification : Option String → Option Transaction → Action Bank Answer
  apply_notification note_type none = pure (ignored "no_transaction")
  apply_notification note_type (some tx) = do
    let otid = get_or tx.transaction_id tx.original_transaction_id
    user ← gets (find_user_by_original_transaction otid)
    apply_to user tx (upper (get_or "" note_type))
