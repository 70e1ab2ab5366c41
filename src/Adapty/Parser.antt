-- ===== src/Adapty/Parser.antt =====
-- The parser of an Adapty event (app/domain/providers/billing/adapty.py).
use musicfy.Prelude.{
  ℕ, String, Bool, true, false, ◌&&◌, ◌||◌, Option, none, some, List, [], ◌∷◌, str_eq,
  if◌then◌else◌,
}
use musicfy.Prelude.Int.{ℤ}
use musicfy.Platform.{Platform}
use musicfy.Json.{Json, Fields, get, as_dict}

unfoldable pub in_events : String → List String → Bool
in_events s [] = false
in_events s (t ∷ ts) = if str_eq s t then true else in_events s ts

abbrev pub granting_events : List String
granting_events = "trial_started" ∷ "subscription_started" ∷ "subscription_renewed" ∷ []

abbrev pub expiring_events : List String
expiring_events = "subscription_expired" ∷ "subscription_cancelled" ∷ []

abbrev pub noop_events : List String
noop_events = "subscription_renewal_cancelled" ∷ "trial_renewal_cancelled" ∷ []

-- `KNOWN_EVENTS`
abbrev pub is_known : String → Bool
is_known s =
    in_events s granting_events
    || in_events s expiring_events
    || in_events s noop_events
    || str_eq s "access_level_updated"

pub data Semantics : Type 0 where
  granting expiring noop : Semantics

-- `ParsedAdaptyEvent`
pub record Event : Type 0 where
  pub event_id : String
  pub event_type : String
  pub customer_user_id : ℕ
  pub vendor_product_id : Option String
  pub expires_at : Option ℤ
  pub transaction_id : Option String
  pub original_transaction_id : Option String
  pub is_active : Option Bool
  pub access_level_id : Option String
  pub will_renew : Option Bool

-- `_first_bool`: a JSON boolean, and nothing that Python only counts as one.
abbrev pub first_bool : List Json → Option Bool
first_bool [] = none
first_bool (Json.bool b ∷ _) = some b
first_bool (Json.null ∷ vs) = first_bool vs
first_bool (Json.int _ ∷ vs) = first_bool vs
first_bool (Json.float _ ∷ vs) = first_bool vs
first_bool (Json.str _ ∷ vs) = first_bool vs
first_bool (Json.arr _ ∷ vs) = first_bool vs
first_bool (Json.obj _ ∷ vs) = first_bool vs

abbrev pub props : Fields → Fields
props body = as_dict (get "event_properties" body)

abbrev pub profile : Fields → Fields
profile body = as_dict (get "profile" body)

-- `parse_is_active`
abbrev pub parse_is_active : Fields → Option Bool
parse_is_active body = first_bool (get "is_active" (props body) ∷ get "is_active" body ∷ [])

-- `parse_will_renew`
abbrev pub parse_will_renew : Fields → Option Bool
parse_will_renew body = first_bool (get "will_renew" (props body) ∷ get "will_renew" body ∷ [])

abbrev is_text : String → Option String → Bool
is_text s none = false
is_text s (some t) = str_eq t s

abbrev is_value : Bool → Option Bool → Bool
is_value b none = false
is_value true (some c) = c
is_value false (some c) = if c then false else true

abbrev pub meaning : String → Option Bool → Option String → Semantics
meaning event_type is_active access_level_id =
    if in_events event_type granting_events
    then granting
    else if in_events event_type expiring_events
    then expiring
    else if in_events event_type noop_events
    then noop
    else if is_value true is_active && is_text "premium" access_level_id
    then granting
    else if is_value false is_active
    then expiring
    else noop

-- `classify_event`, of an event whose type is known.
unfoldable pub classify_event : Event → Semantics
classify_event e = meaning e.event_type e.is_active e.access_level_id

module _ (platform : Platform) where
  open platform use {lower, show_int, parse_uuid, parse_iso}

  -- `_first_str`: a text that is not empty, or the text of a number that is no boolean.
  abbrev pub first_str : List Json → Option String
  first_str [] = none
  first_str (Json.str s ∷ vs) = if str_eq s "" then first_str vs else some s
  first_str (Json.int n ∷ vs) = some (show_int n)
  first_str (Json.null ∷ vs) = first_str vs
  first_str (Json.bool _ ∷ vs) = first_str vs
  first_str (Json.float _ ∷ vs) = first_str vs
  first_str (Json.arr _ ∷ vs) = first_str vs
  first_str (Json.obj _ ∷ vs) = first_str vs

  abbrev pub parse_event_id : Fields → Option String
  parse_event_id body = first_str (
      get "profile_event_id" body
      ∷ get "profile_event_id" (props body)
      ∷ get "event_id" body
      ∷ get "id" body
      ∷ [])

  abbrev lower_of : Option String → String
  lower_of none = ""
  lower_of (some s) = lower s

  abbrev pub parse_event_type : Fields → String
  parse_event_type body = lower_of (
      first_str (
        get "event_type" body
        ∷ get "event" body
        ∷ get "event_type" (props body)
        ∷ get "type" body
        ∷ []))

  abbrev uuid_of : Option String → Option ℕ
  uuid_of none = none
  uuid_of (some s) = parse_uuid s

  abbrev pub parse_customer_user_id : Fields → Option ℕ
  parse_customer_user_id body = uuid_of (
      first_str (
        get "customer_user_id" body
        ∷ get "customer_user_id" (profile body)
        ∷ get "customer_user_id" (props body)
        ∷ get "user_id" body
        ∷ []))

  abbrev pub parse_vendor_product_id : Fields → Option String
  parse_vendor_product_id body = first_str (
      get "vendor_product_id" (props body)
      ∷ get "product_id" (props body)
      ∷ get "vendor_product_id" body
      ∷ get "product_id" body
      ∷ [])

  abbrev time_of : Option String → Option ℤ
  time_of none = none
  time_of (some s) = parse_iso s

  abbrev pub parse_expires_at : Fields → Option ℤ
  parse_expires_at body = time_of (
      first_str (
        get "subscription_expires_at" (props body)
        ∷ get "expires_at" (props body)
        ∷ get "subscription_expires_at" body
        ∷ get "expires_at" body
        ∷ get "expires_at" (profile body)
        ∷ []))

  abbrev pub parse_transaction_id : Fields → Option String
  parse_transaction_id body =
      first_str (get "transaction_id" (props body) ∷ get "transaction_id" body ∷ [])

  abbrev pub parse_original_transaction_id : Fields → Option String
  parse_original_transaction_id body =
      first_str
        (get "original_transaction_id" (props body) ∷ get "original_transaction_id" body ∷ [])

  abbrev pub parse_access_level_id : Fields → Option String
  parse_access_level_id body =
      first_str (get "access_level_id" (props body) ∷ get "access_level_id" body ∷ [])

  -- The event that `handle` builds, once its three identifying parts are there.
  unfoldable pub parse_event : String → String → ℕ → Fields → Event
  parse_event event_id event_type customer_user_id body = record {
    event_id = event_id;
    event_type = event_type;
    customer_user_id = customer_user_id;
    vendor_product_id = parse_vendor_product_id body;
    expires_at = parse_expires_at body;
    transaction_id = parse_transaction_id body;
    original_transaction_id = parse_original_transaction_id body;
    is_active = parse_is_active body;
    access_level_id = parse_access_level_id body;
    will_renew = parse_will_renew body;
  }
