-- ===== src/Fal/Signature.antt =====
-- The check of a webhook's signature (app/domain/providers/fal/signature.py) and the cache of fal's public
-- keys (`verify_webhook`, `_get_fal_jwks` of client.py). The cryptography is a parameter.
use musicfy.Prelude.{
  ℕ, ◌+◌, ◌-◌, ◌*◌, String, Bool, true, false, ◌&&◌, ◌||◌, Option, none, some, ltb, leb, str_eq,
  if◌then◌else◌, truthy, Error, Result, ok, err, Action, pure, raise, branch, ◌>>=◌,
  webhook_signature_invalid, runtime_error,
}
use musicfy.Prelude.Int.{ℤ, pos, negsuc}
use musicfy.Json.{Json, Items, nil, cons, get, truth}
use musicfy.Platform.{Platform}
use musicfy.Fal.Http.{Exchange, timed_out, broken, response}
use Prim.Native.String.{◌++◌}

pub record Crypto : Type 0 where
  -- `hmac.new(secret, body, sha256).hexdigest()`
  pub hmac_hex : String → String → String
  pub sha256_hex : String → String
  -- `bytes.fromhex(text)`, `none` for `ValueError`
  pub from_hex : String → Option String
  -- whether `Ed25519PublicKey.from_public_bytes(x).verify(signature, message)` passes without
  -- `InvalidSignature` or `ValueError`: key, signature, message
  pub ed25519_verify : Json → String → String → Bool

-- `headers.get`
abbrev pub Headers : Type 0
Headers = String → Option String

-- Python's `a or b` on headers: an empty one counts as none.
abbrev pub or_header : Option String → Option String → Option String
or_header none b = b
or_header (some s) b = if str_eq s "" then b else some s

abbrev pub header_text : Option String → String
header_text none = ""
header_text (some s) = s

abbrev pub signature_invalid : String → Error
signature_invalid reason = webhook_signature_invalid reason

abbrev pub check : Bool → String → Result (Unit {0})
check true reason = ok tt
check false reason = err (signature_invalid reason)

-- `FAL_TIMESTAMP_TOLERANCE_SECONDS`, in milliseconds
abbrev pub tolerance_ms : ℕ
tolerance_ms = 300000

-- |now - ts| in milliseconds, of a time of now that is not below 0
abbrev pub distance_ms : ℕ → ℤ → ℕ
distance_ms now (pos ts) = (now - ts * 1000) + (ts * 1000 - now)
distance_ms now (negsuc n) = now + (n + 1) * 1000

-- The cache of the client: `_fal_jwks` and `_fal_jwks_at`, in milliseconds.
pub record Jwks : Type 0 where
  pub keys : Items
  pub at : ℕ

abbrev pub has_keys : Items → Bool
has_keys nil = false
has_keys (cons _ _) = true

-- A day, in milliseconds.
abbrev pub jwks_lifetime_ms : ℕ
jwks_lifetime_ms = 86400000

-- `self._fal_jwks = keys`, where these are a list that is not empty.
unfoldable pub keep_keys : ℕ → Json → Action Jwks Items
keep_keys now (Json.arr (cons k ks)) c = (ok (cons k ks), record { keys = cons k ks; at = now })
keep_keys now _ c = (ok c.keys, c)

abbrev pub no_refresh : Action Jwks Items
no_refresh c =
    if has_keys c.keys then pure c.keys c else raise (signature_invalid "jwks_unavailable") c

abbrev pub read_keys : ℕ → Option Json → Action Jwks Items
read_keys now none = no_refresh
read_keys now (some (Json.obj d)) = keep_keys now (get "keys" d)
read_keys now (some _) = raise (runtime_error "AttributeError")

-- What the answer for the keys makes of the cache; `raise_for_status` passes 2xx alone.
unfoldable pub refresh : ℕ → Exchange → Action Jwks Items
refresh now timed_out = no_refresh
refresh now (broken _) = no_refresh
refresh now (response code text body) =
    branch (leb 200 code && ltb code 300) (read_keys now body) no_refresh

-- `_get_fal_jwks`
unfoldable pub get_fal_jwks : ℕ → Exchange → Action Jwks Items
get_fal_jwks now answer c =
    branch (has_keys c.keys && ltb (now - c.at) jwks_lifetime_ms) (pure c.keys) (refresh now answer)
      c

-- The four headers of a signed webhook.
pub record Signed : Type 0 where
  pub request_id : Option String
  pub user_id : Option String
  pub timestamp : Option String
  pub signature_hex : Option String

module _ (platform : Platform) (crypto : Crypto) where
  open platform use {strip, parse_int}
  open crypto use {hmac_hex, sha256_hex, from_hex, ed25519_verify}

  -- `verify_signature`
  unfoldable pub verify_signature : String → String → Headers → Result (Unit {0})
  verify_signature secret raw_body headers =
      if str_eq secret ""
      then err (signature_invalid "secret_not_configured")
      else let received = or_header (headers "X-Fal-Signature") (headers "x-fal-signature") in
        if truthy received
        then check (str_eq (strip (header_text received)) (hmac_hex secret raw_body)) "mismatch"
        else err (signature_invalid "header_missing")

  -- `has_fal_ed25519_headers`
  abbrev pub two_names : Headers → String → String → Option String
  two_names headers name title = or_header (headers name) (headers title)

  abbrev pub three_names : Headers → String → String → String → Option String
  three_names headers name title upper = or_header (two_names headers name title) (headers upper)

  unfoldable pub has_fal_ed25519_headers : Headers → Bool
  has_fal_ed25519_headers headers =
      truthy (two_names headers "x-fal-webhook-signature" "X-Fal-Webhook-Signature")
      && truthy (two_names headers "x-fal-webhook-timestamp" "X-Fal-Webhook-Timestamp")
      && truthy (two_names headers "x-fal-webhook-request-id" "X-Fal-Webhook-Request-Id")

  abbrev pub signed_of : Headers → Signed
  signed_of headers = record {
    request_id =
        three_names headers "x-fal-webhook-request-id" "X-Fal-Webhook-Request-Id"
          "X-FAL-WEBHOOK-REQUEST-ID";
    user_id =
        three_names headers "x-fal-webhook-user-id" "X-Fal-Webhook-User-Id" "X-FAL-WEBHOOK-USER-ID";
    timestamp =
        three_names headers "x-fal-webhook-timestamp" "X-Fal-Webhook-Timestamp"
          "X-FAL-WEBHOOK-TIMESTAMP";
    signature_hex =
        three_names headers "x-fal-webhook-signature" "X-Fal-Webhook-Signature"
          "X-FAL-WEBHOOK-SIGNATURE";
  }

  abbrev pub message_of : Signed → String → String
  message_of s raw_body =
      header_text s.request_id
      ++ "\n"
      ++ header_text s.user_id
      ++ "\n"
      ++ header_text s.timestamp
      ++ "\n"
      ++ sha256_hex raw_body

  -- `jwk.get("x")`, where the key is an object
  abbrev pub key_of : Json → Json
  key_of (Json.obj d) = get "x" d
  key_of _ = Json.null

  abbrev pub key_passes : String → String → Json → Bool
  key_passes signature message jwk =
      truth (key_of jwk) && ed25519_verify (key_of jwk) signature message

  -- The loop over the keys.
  unfoldable pub some_key_passes : String → String → Items → Bool
  some_key_passes signature message nil = false
  some_key_passes signature message (cons k ks) =
      key_passes signature message k || some_key_passes signature message ks

  abbrev pub verify_with : Items → String → Option String → Result (Unit {0})
  verify_with keys message none = err (signature_invalid "bad_signature_hex")
  verify_with keys message (some signature) =
      if has_keys keys
      then check (some_key_passes signature message keys) "no_matching_key"
      else err (signature_invalid "no_public_keys")

  abbrev pub verify_at : ℕ → Items → Signed → String → Option ℤ → Result (Unit {0})
  verify_at now keys s raw_body none = err (signature_invalid "bad_timestamp")
  verify_at now keys s raw_body (some ts) =
      if ltb tolerance_ms (distance_ms now ts)
      then err (signature_invalid "timestamp_out_of_range")
      else verify_with keys (message_of s raw_body) (from_hex (strip (header_text s.signature_hex)))

  abbrev pub has_headers : Signed → Bool
  has_headers s = truthy s.request_id && truthy s.timestamp && truthy s.signature_hex

  -- `verify_fal_ed25519`
  unfoldable pub verify_fal_ed25519 : ℕ → Items → Headers → String → Result (Unit {0})
  verify_fal_ed25519 now keys headers raw_body =
      let s = signed_of headers in
      if has_headers s
      then verify_at now keys s raw_body (parse_int (header_text s.timestamp))
      else err (signature_invalid "headers_missing")

  -- `verify_webhook`; `answer` is what a fetch of the keys gives now
  unfoldable pub verify_webhook : String → ℕ → Exchange → Headers → String → Action Jwks (Unit {0})
  verify_webhook secret now answer headers raw_body =
      branch (has_fal_ed25519_headers headers)
        (do keys ← get_fal_jwks now answer; λ c. (verify_fal_ed25519 now keys headers raw_body, c))
        (λ c. (verify_signature secret raw_body headers, c))
