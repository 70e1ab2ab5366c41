-- ===== src/Tests/Webhooks.antt =====
-- Deliveries of Adapty, on the store of the tests.
use musicfy.Prelude.{
  ℕ, ◌+◌, String, ◌≡◌, refl, ◌↔◌, true, not, ◌&&◌, Option, none, some, if◌then◌else◌,
}
use musicfy.Bank.{Key, has_key, Product, get_subscription}
use musicfy.Adapty.Grants.{Earns, IsNamed, IsTxn, apply_granting}
use musicfy.Adapty.Service.{Database, Body, parsed, apply}
use musicfy.Json.{Json, end, field}
use musicfy.Enums.{SubscriptionStatus}
use musicfy.Adapty.Parser.{Event, granting, expiring, classify_event, in_events}
use musicfy.Adapty.Classify.{Grants, Expires, classify_known}
use musicfy.Billing.Ownership.{status_of}
use musicfy.Wallet.Balance.{available}
use musicfy.Tests.Data.{store, runtime}

abbrev event_of : String → String → Event
event_of id type = record {
  event_id = id;
  event_type = type;
  customer_user_id = 1;
  vendor_product_id = none;
  expires_at = none;
  transaction_id = some "t9";
  original_transaction_id = some "t9";
  is_active = none;
  access_level_id = none;
  will_renew = none;
}

abbrev delivery : Body
delivery = parsed (
    Json.obj (
      field "event_id" (Json.str "e1") (
        field "event_type" (Json.str "subscription_started")
          (field "customer_user_id" (Json.str "user-1") end))))

abbrev open_database : Database
open_database = record { takes_event = λ _ _. true; takes_rows = λ _. true }

apply_granting_example :
    let e = event_of "e1" "subscription_started" in
    let c = (apply runtime 60 open_database e end 1 store).1 in
    ((txn : String) × (product : Option Product) × (coins : ℕ) × IsTxn runtime 60 open_database e
        txn
      × IsNamed runtime 60 open_database none store product
      × Earns runtime 60 open_database product coins
      × (available 1 c ≡ (
          if true && not (has_key (Key.adapty_txn txn) store.ledger)
          then available 1 store + coins
          else available 1 store)))
    × (status_of (get_subscription 1 c) ≡ SubscriptionStatus.active)
unfolding classify_event in_events
apply_granting_example =
    apply_granting runtime 60 open_database 1 (event_of "e1" "subscription_started") end 1 store
      refl refl refl refl

classify_known_example :
    let e = event_of "e1" "subscription_started" in
    ((classify_event e ≡ granting) ↔ Grants e.event_type e.is_active e.access_level_id)
    × ((classify_event e ≡ expiring) ↔ Expires e.event_type e.is_active)
unfolding in_events
classify_known_example = classify_known (event_of "e1" "subscription_started") refl
