-- ===== src/Adapty/Audit.antt =====
-- Deliveries of Adapty events and the ledger (app/domain/services/adapty_webhook_service.py).
use musicfy.Prelude.{ℕ, String, refl, Option, none, some, ◌∷◌, arith}
use musicfy.Adapty.Service.{
  Database, ResolvedVia, Body, record_event, apply_semantics, apply, handle, empty_body,
  invalid_json, parsed, dispatch, identified, with_event_id, with_object, resolve_webhook_user,
}
use musicfy.Platform.{Platform}
use musicfy.Json.{Json, Fields}
use musicfy.Bank.{Bank}
use musicfy.Wallet.Audit.{IsAudited, IsAudited-cong}
use musicfy.Adapty.Parser.{
  Event, Semantics, granting, expiring, noop, classify_event, parse_event, parse_event_id,
}
use musicfy.Adapty.Journal.{apply_semantics_lem}
use musicfy.Adapty.Grants.{granting-IsAudited, other_lem}

module _ (platform : Platform) (fallback : ℕ) (db : Database) where
  apply_semantics-IsAudited :
      (v : ℕ) (s : Semantics) (e : Event) (u : ℕ) (b : Bank)
      → IsAudited v b
      → IsAudited v (apply_semantics platform fallback db s e u b).1
  apply_semantics-IsAudited v granting e u b h = granting-IsAudited platform fallback db v e u b h
  apply_semantics-IsAudited v expiring e u b h =
      let same = other_lem platform fallback db expiring e u b (λ p. cc p) in
      IsAudited-cong v b _ same.0 same.1 h
  apply_semantics-IsAudited v noop e u b h =
      let same = other_lem platform fallback db noop e u b (λ p. cc p) in
      IsAudited-cong v b _ same.0 same.1 h

  apply-IsAudited :
      (v : ℕ) (e : Event) (body : Fields) (u : ℕ) (b : Bank)
      → IsAudited v b
      → IsAudited v (apply platform fallback db e body u b).1
  unfolding apply record_event
  apply-IsAudited v e body u b h =
      let d = record b { adapty_events = e.event_id ∷ b.adapty_events } in
      ground (
        arith,
        IsAudited-cong v b d refl refl h,
        apply_semantics-IsAudited v (classify_event e) e u d (IsAudited-cong v b d refl refl h),
        apply_semantics_lem platform fallback db (classify_event e) e u d,
      )

  dispatch-IsAudited :
      (v : ℕ) (id type : String) (x : ℕ) (body : Fields) (r : Option (ℕ × ResolvedVia)) (b : Bank)
      → IsAudited v b
      → IsAudited v (dispatch platform fallback db id type x body r b).1
  dispatch-IsAudited v id type x body none b h = h
  dispatch-IsAudited v id type x body (some (u, via)) b h =
      ground (arith, apply-IsAudited v (parse_event platform id type x body) body u b h)

  identified-IsAudited :
      (v : ℕ) (id type : String) (x : Option ℕ) (body : Fields) (b : Bank)
      → IsAudited v b
      → IsAudited v (identified platform fallback db id type x body b).1
  identified-IsAudited v id type none body b h = h
  identified-IsAudited v id type (some x) body b h =
      let r = resolve_webhook_user platform fallback db x b in
      ground (arith, dispatch-IsAudited v id type x body r b h)

  with_event_id-IsAudited :
      (v : ℕ) (id : Option String) (body : Fields) (b : Bank)
      → IsAudited v b
      → IsAudited v (with_event_id platform fallback db id body b).1
  with_event_id-IsAudited v none body b h = h
  with_event_id-IsAudited v (some id) body b h = identified-IsAudited v id _ _ body b h

  with_object-IsAudited :
      (v : ℕ) (j : Json) (b : Bank)
      → IsAudited v b
      → IsAudited v (with_object platform fallback db j b).1
  with_object-IsAudited v (Json.obj body) b h =
      with_event_id-IsAudited v (parse_event_id platform body) body b h
  with_object-IsAudited v j b h = h

  -- After any delivery, whatever its body, the available coins of every user are still what the ledger
  -- says.
  handle-IsAudited :
      (v : ℕ) (body : Body) (b : Bank)
      → IsAudited v b
      → IsAudited v (handle platform fallback db body b).1
  unfolding handle
  handle-IsAudited v empty_body b h = h
  handle-IsAudited v invalid_json b h = h
  handle-IsAudited v (parsed j) b h = with_object-IsAudited v j b h
