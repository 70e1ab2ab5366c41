-- ===== src/Fal/Trust.antt =====
-- What an accepted webhook of fal proves, and what the cache of its keys keeps
-- (app/domain/providers/fal/signature.py, client.py).
use musicfy.Prelude.{
  ℕ, ◌≤◌, ◌<◌, String, ◌≡◌, refl, ◌⊎◌, inl, inr, Bool, true, false, ◌&&◌, Option, none, some, List,
  [], ◌∷◌, arith, ltb, if◌then◌else◌, Bool-cases, Error, Result, ok, err, runtime_error,
}
use musicfy.Fal.Signature.{
  three_names, message_of, key_of, verify_at, distance_ms, signed_of, has_keys, key_passes,
  header_text, verify_with, Crypto, Headers, Jwks, some_key_passes, verify_fal_ed25519,
  get_fal_jwks,
}
use musicfy.Json.{Json, Items, nil, cons}
use musicfy.Prelude.Int.{ℤ}
use musicfy.Platform.{Platform}
use musicfy.Fal.Http.{Exchange, timed_out, broken, response}
use Prim.Native.String.{◌++◌}

abbrev pub IsIn : Json → Items → Type 0
IsIn k nil = ⊥
IsIn k (cons j js) = (k ≡ j) ⊎ IsIn k js

not_ltb : (a b : ℕ) → ltb a b ≡ false → b ≤ a
not_ltb a b h = ground arith

and_right : (a b : Bool) → (a && b) ≡ true → b ≡ true
and_right a b h = ground arith

not_refused :
    (b : Bool) (r : Result (Unit {0})) (e : Error)
    → (if b then err e else r) ≡ ok tt
    → (b ≡ false) × (r ≡ ok tt)
not_refused true r e h = cc
not_refused false r e h = (refl, h)

module _ (platform : Platform) (crypto : Crypto) where
  some_key-IsIn :
      (signature message : String) (keys : Items)
      → some_key_passes platform crypto signature message keys ≡ true
      → (k : Json) × IsIn k keys × (key_passes platform crypto signature message k ≡ true)
  unfolding some_key_passes
  some_key-IsIn signature message nil h = cc
  some_key-IsIn signature message (cons k ks) h =
      elim (Bool-cases (key_passes platform crypto signature message k)) [
        | inl e ↦ (k, inl refl, e)
        | inr e ↦
            let r = some_key-IsIn signature message ks (ground (arith, e)) in (r.0, inr r.1, r.2)
      ]

  -- The headers of a signed webhook, under any of their three spellings.
  abbrev pub sent_request_id : Headers → String
  sent_request_id headers = header_text (
      three_names platform crypto headers "x-fal-webhook-request-id" "X-Fal-Webhook-Request-Id"
        "X-FAL-WEBHOOK-REQUEST-ID")

  abbrev pub sent_user_id : Headers → String
  sent_user_id headers = header_text (
      three_names platform crypto headers "x-fal-webhook-user-id" "X-Fal-Webhook-User-Id"
        "X-FAL-WEBHOOK-USER-ID")

  abbrev pub sent_timestamp : Headers → String
  sent_timestamp headers = header_text (
      three_names platform crypto headers "x-fal-webhook-timestamp" "X-Fal-Webhook-Timestamp"
        "X-FAL-WEBHOOK-TIMESTAMP")

  abbrev pub sent_signature : Headers → String
  sent_signature headers = header_text (
      three_names platform crypto headers "x-fal-webhook-signature" "X-Fal-Webhook-Signature"
        "X-FAL-WEBHOOK-SIGNATURE")

  -- The webhook was signed, of late, by one of the keys.
  pub record IsSigned (now : ℕ) (keys : Items) (headers : Headers) (raw_body : String)
      : Type 0 where
    pub time : ℤ
    pub timed : platform.parse_int (sent_timestamp headers) ≡ some time
    pub recent : distance_ms now time ≤ 300000
    pub signature : String
    pub sent : crypto.from_hex (platform.strip (sent_signature headers)) ≡ some signature
    pub key : Json
    pub known : IsIn key keys
    pub verified :
        crypto.ed25519_verify (key_of platform crypto key) signature (
          sent_request_id headers
          ++ "\n"
          ++ sent_user_id headers
          ++ "\n"
          ++ sent_timestamp headers
          ++ "\n"
          ++ crypto.sha256_hex raw_body)
        ≡ true

  verify_with-IsIn :
      (keys : Items) (message : String) (signature : Option String)
      → verify_with platform crypto keys message signature ≡ ok tt
      → (s : String) × (signature ≡ some s)
        × ((k : Json) × IsIn k keys × (key_passes platform crypto s message k ≡ true))
  verify_with-IsIn keys message none h = cc
  verify_with-IsIn keys message (some s) h =
      let r = some_key-IsIn s message keys (ground arith) in (s, refl, (r.0, r.1, r.2))

  verify_at-IsSigned :
      (now : ℕ) (keys : Items) (headers : Headers) (raw_body : String) (t : Option ℤ)
      → platform.parse_int (header_text (signed_of platform crypto headers).timestamp) ≡ t
      → verify_at platform crypto now keys (signed_of platform crypto headers) raw_body t ≡ ok tt
      → IsSigned now keys headers raw_body
  verify_at-IsSigned now keys headers raw_body none e h = cc
  verify_at-IsSigned now keys headers raw_body (some t) e h =
      let s = signed_of platform crypto headers in
      let p = not_refused _ _ _ h in
      let r =
        verify_with-IsIn keys (message_of platform crypto s raw_body)
          (crypto.from_hex (platform.strip (header_text s.signature_hex))) p.1 in
      record {
        time = t;
        timed = e;
        recent = not_ltb _ _ p.0;
        signature = r.0;
        sent = r.1;
        key = r.2.0;
        known = r.2.1;
        verified = and_right _ _ r.2.2;
      }

  -- A webhook that `verify_fal_ed25519` accepts has a timestamp five minutes away at most, and the bytes of its
  -- signature header, as a signature of its request id, user id, timestamp and body, pass for one of fal's keys.
  pub verify_fal_ed25519-IsSigned :
      (now : ℕ) (keys : Items) (headers : Headers) (raw_body : String)
      → verify_fal_ed25519 platform crypto now keys headers raw_body ≡ ok tt
      → IsSigned now keys headers raw_body
  unfolding verify_fal_ed25519
  verify_fal_ed25519-IsSigned now keys headers raw_body h =
      verify_at-IsSigned now keys headers raw_body _ refl (ground arith)

abbrev pub IsOther : Json → Type 0
IsOther (Json.obj _) = ⊥
IsOther _ = Unit

-- A success of fal whose body is JSON and no object.
abbrev pub IsNoObject : Exchange → Type 0
IsNoObject timed_out = ⊥
IsNoObject (broken _) = ⊥
IsNoObject (response code text none) = ⊥
IsNoObject (response code text (some j)) = (200 ≤ code) × (code < 300) × IsOther j

-- The cache has keys, and they are what the call returned, unless the answer was a success with JSON that
-- is no object.
abbrev pub Serves : Exchange → Result Items × Jwks → Type 0
Serves answer r =
    (has_keys r.1.keys ≡ true)
    × ((r.0 ≡ ok r.1.keys) ⊎ (IsNoObject answer × (r.0 ≡ err (runtime_error "AttributeError"))))

-- The cache after a sequence of calls, each with its time and the answer that a fetch would get.
abbrev pub after_calls : List (ℕ × Exchange) → Jwks → Jwks
after_calls [] c = c
after_calls ((now, answer) ∷ l) c = after_calls l (get_fal_jwks now answer c).1
