-- ===== src/Adapty/Journal.antt =====
-- What applying an Adapty event does to the journal of events
-- (app/domain/services/adapty_webhook_service.py, `_apply`).
use musicfy.Prelude.{
  ℕ, String, ◌≡◌, refl, sym, ap, ◌∙◌, subst, ◌⊎◌, inl, inr, Bool, true, false, Option, ◌∷◌, arith,
  Bool-cases, Result, ok, err, Action, pure, raise, branch, ◌>>=◌, ◌>>◌, lookup-insert,
}
use musicfy.Adapty.Service.{
  fit_columns, Database, data_error, Outcome, duplicate, applied, seen, record_event,
  expire_subscription, activate_subscription, grant, apply_semantics, apply,
}
use text.Mathlib.TextPositions.{eq_refl}
use musicfy.Platform.{Platform}
use musicfy.Json.{Fields}
use musicfy.Bank.{Bank, Product, upsert_subscription}
use musicfy.Adapty.Parser.{Event, Semantics, granting, expiring, noop, classify_event}

-- Two banks with the same users, identities and journal of events.
abbrev pub SameJournal : Bank → Bank → Type 0
SameJournal b c =
    (c.users ≡ b.users) × (c.identities ≡ b.identities) × (c.adapty_events ≡ b.adapty_events)

-- What a delivery keeps, for those after it.
pub record Grows (b c : Bank) : Type 0 where
  pub users : c.users ≡ b.users
  pub identities : c.identities ≡ b.identities
  pub events : (id : String) → seen id b.adapty_events ≡ true → seen id c.adapty_events ≡ true

pub Grows-refl : (b : Bank) → Grows b b
Grows-refl b = record { users = refl; identities = refl; events = λ id h. h }

pub Grows-trans : (b c d : Bank) → Grows b c → Grows c d → Grows b d
Grows-trans b c d g h = record {
  users = h.users ∙ g.users;
  identities = h.identities ∙ g.identities;
  events = λ id p. h.events id (g.events id p);
}

SameJournal-Grows : (b c : Bank) → SameJournal b c → Grows b c
SameJournal-Grows b c (p, q, r) = record {
  users = p;
  identities = q;
  events = λ id h. ap (seen id) r ∙ h;
}

module _ (platform : Platform) (fallback : ℕ) (db : Database) where
  pub grant_lem :
      (e : Event) (u : ℕ) (product : Option Product) (b : Bank)
      → ((grant platform fallback db e u product b).0 ≡ ok tt)
        × SameJournal b (grant platform fallback db e u product b).1
        × ((grant platform fallback db e u product b).1.subscriptions ≡ b.subscriptions)
  unfolding grant
  grant_lem e u product b = grind (arith, lookup-insert)

  -- Applying the meaning of an event raises nothing and leaves the journal alone.
  pub apply_semantics_lem :
      (s : Semantics) (e : Event) (u : ℕ) (b : Bank)
      → ((apply_semantics platform fallback db s e u b).0 ≡ ok tt)
        × SameJournal b (apply_semantics platform fallback db s e u b).1
  unfolding apply_semantics expire_subscription activate_subscription upsert_subscription
  apply_semantics_lem granting e u b = grind (arith, grant_lem)
  apply_semantics_lem expiring e u b = grind arith
  apply_semantics_lem noop e u b = ground arith

  -- How `apply` ends: refused, a duplicate, or applied, and then its id is recorded.
  abbrev pub Applied : Event → Fields → Bank → Result Outcome × Bank → Type 0
  Applied e body b (err x, c) = x ≡ data_error
  Applied e body b (ok o, c) =
      Grows b c
      × (db.takes_event e body ≡ true)
      × (((o ≡ duplicate) × (c ≡ b) × (seen e.event_id b.adapty_events ≡ true))
          ⊎ ((o ≡ applied) × (seen e.event_id c.adapty_events ≡ true)))

  recorded-Grows :
      (id : String) (b : Bank) → Grows b (record b { adapty_events = id ∷ b.adapty_events })
  recorded-Grows id b = record { users = refl; identities = refl; events = λ k h. ground arith }

  fitted-Applied :
      (t : Bool) (m : Action Bank (Unit {0})) (e : Event) (body : Fields) (b : Bank)
      → let d = record b { adapty_events = e.event_id ∷ b.adapty_events } in
        db.takes_event e body ≡ true
        → ((m d).0 ≡ ok tt) × SameJournal d (m d).1
        → Applied e body b ((branch t (pure tt) (raise data_error) >> (m >> pure applied)) d)
  fitted-Applied false m e body b row h = refl
  fitted-Applied true m e body b row h =
      let d = record b { adapty_events = e.event_id ∷ b.adapty_events } in
      let g = SameJournal-Grows d (m d).1 h.1 in
      subst (λ r. Applied e body b (((λ _. (r, (m d).1)) >> pure applied) d)) (sym h.0)
        (
          Grows-trans b d (m d).1 (recorded-Grows e.event_id b) g,
          row,
          inr (refl, g.events e.event_id (ground (arith, eq_refl e.event_id))),
        )

  settled-Applied :
      (s : Semantics) (e : Event) (body : Fields) (u : ℕ) (b : Bank)
      → let d = record b { adapty_events = e.event_id ∷ b.adapty_events } in
        db.takes_event e body ≡ true
        → Applied e body b
            ((fit_columns db s e >> (apply_semantics platform fallback db s e u >> pure applied)) d)
  settled-Applied granting e body u b row =
      let d = record b { adapty_events = e.event_id ∷ b.adapty_events } in
      fitted-Applied (db.takes_rows e) (apply_semantics platform fallback db granting e u) e body b
        row (apply_semantics_lem granting e u d)
  settled-Applied expiring e body u b row =
      let d = record b { adapty_events = e.event_id ∷ b.adapty_events } in
      fitted-Applied (db.takes_rows e) (apply_semantics platform fallback db expiring e u) e body b
        row (apply_semantics_lem expiring e u d)
  settled-Applied noop e body u b row =
      let d = record b { adapty_events = e.event_id ∷ b.adapty_events } in
      fitted-Applied true (apply_semantics platform fallback db noop e u) e body b row
        (apply_semantics_lem noop e u d)

  -- An event whose id was recorded is a duplicate, and changes nothing.
  pub apply-seen :
      (e : Event) (body : Fields) (u : ℕ) (b : Bank)
      → db.takes_event e body ≡ true
      → seen e.event_id b.adapty_events ≡ true
      → apply platform fallback db e body u b ≡ (ok duplicate, b)
  unfolding apply record_event
  apply-seen e body u b row h = ground arith

  record_event-new :
      (e : Event) (body : Fields) (b : Bank)
      → db.takes_event e body ≡ true
      → seen e.event_id b.adapty_events ≡ false
      → record_event db e body b
        ≡ (ok true, record b { adapty_events = e.event_id ∷ b.adapty_events })
  unfolding record_event
  record_event-new e body b row new = ground arith

  apply-refused :
      (e : Event) (body : Fields) (u : ℕ) (b : Bank)
      → db.takes_event e body ≡ false
      → apply platform fallback db e body u b ≡ (err data_error, b)
  unfolding apply record_event
  apply-refused e body u b row = ground arith

  pub apply-Applied :
      (e : Event) (body : Fields) (u : ℕ) (b : Bank)
      → Applied e body b (apply platform fallback db e body u b)
  unfolding apply
  apply-Applied e body u b = elim (Bool-cases (db.takes_event e body)) [
    | inl p ↦ elim (Bool-cases (seen e.event_id b.adapty_events)) [
      | inl q ↦
          subst (Applied e body b) (sym (apply-seen e body u b p q))
            (Grows-refl b, p, inl (refl, refl, q))
      | inr q ↦
          subst
            (λ r. Applied e body b (
              ((λ _. r) >>= λ inserted.
              branch inserted
                (do
                  fit_columns db (classify_event e) e
                  apply_semantics platform fallback db (classify_event e) e u
                  pure applied)
                (pure duplicate))
                b))
            (sym (record_event-new e body b p q)) (settled-Applied (classify_event e) e body u b p)
    ]
    | inr p ↦ subst (Applied e body b) (sym (apply-refused e body u b p)) refl
  ]
