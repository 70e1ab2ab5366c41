-- ===== src/Adapty/Classify.antt =====
-- The meaning of an Adapty event (app/domain/providers/billing/adapty.py, `classify_event`).
use text.Mathlib.TextEquality.{eq_iff}
use musicfy.Prelude.{
  String, ◌≡◌, ◌↔◌, ◌⊎◌, inl, inr, refl, Bool, true, false, Option, none, some, arith, str_eq,
}
use musicfy.Adapty.Parser.{
  Event, granting, expiring, classify_event, meaning, is_known, in_events, granting_events,
  expiring_events, noop_events,
}

abbrev pub Grants : String → Option Bool → Option String → Type 0
Grants s active level =
    (in_events s granting_events ≡ true)
    ⊎ ((s ≡ "access_level_updated") × (active ≡ some true) × (level ≡ some "premium"))

abbrev pub Expires : String → Option Bool → Type 0
Expires s active =
    (in_events s expiring_events ≡ true) ⊎ ((s ≡ "access_level_updated") × (active ≡ some false))

-- The types fall into three groups.
granting_cases :
    (s : String)
    → in_events s granting_events ≡ true
    → (s ≡ "trial_started") ⊎ (s ≡ "subscription_started") ⊎ (s ≡ "subscription_renewed")
unfolding in_events
granting_cases s h = ground (
  arith,
  eq_iff s "trial_started",
  eq_iff s "subscription_started",
  eq_iff s "subscription_renewed",
)

expiring_cases :
    (s : String)
    → in_events s expiring_events ≡ true
    → (s ≡ "subscription_expired") ⊎ (s ≡ "subscription_cancelled")
unfolding in_events
expiring_cases s h =
    ground (arith, eq_iff s "subscription_expired", eq_iff s "subscription_cancelled")

-- A type that ends access does not grant it.
expiring_not_granting :
    (s : String) → in_events s expiring_events ≡ true → in_events s granting_events ≡ false
unfolding in_events
expiring_not_granting s h = elim (expiring_cases s h) [ inl e ↦ rw e | inr e ↦ rw e ]

access_level_updated_lem :
    (s : String)
    → s ≡ "access_level_updated"
    → (in_events s granting_events ≡ false)
      × (in_events s expiring_events ≡ false)
      × (in_events s noop_events ≡ false)
unfolding in_events
access_level_updated_lem s e = rw e (refl, refl, refl)

noop_cases :
    (s : String)
    → in_events s noop_events ≡ true
    → (s ≡ "subscription_renewal_cancelled") ⊎ (s ≡ "trial_renewal_cancelled")
unfolding in_events
noop_cases s h =
    ground (arith, eq_iff s "subscription_renewal_cancelled", eq_iff s "trial_renewal_cancelled")

noop_lem :
    (s : String)
    → in_events s noop_events ≡ true
    → (in_events s granting_events ≡ false)
      × (in_events s expiring_events ≡ false)
      × (str_eq s "access_level_updated" ≡ false)
unfolding in_events
noop_lem s h = elim (noop_cases s h) [
  | inl e ↦ rw e (refl, refl, refl)
  | inr e ↦ rw e (refl, refl, refl)
]

meaning_granting :
    (s : String) (active : Option Bool) (level : Option String)
    → is_known s ≡ true
    → (meaning s active level ≡ granting) ↔ Grants s active level
meaning_granting s active none known = ground (
  arith,
  eq_iff s "access_level_updated",
  expiring_not_granting s,
  noop_lem s,
  access_level_updated_lem s,
)
meaning_granting s active (some t) known = ground (
  arith,
  eq_iff s "access_level_updated",
  eq_iff t "premium",
  expiring_not_granting s,
  noop_lem s,
  access_level_updated_lem s,
)

meaning_expiring :
    (s : String) (active : Option Bool) (level : Option String)
    → is_known s ≡ true
    → (meaning s active level ≡ expiring) ↔ Expires s active
meaning_expiring s active level known = ground (
  arith,
  eq_iff s "access_level_updated",
  expiring_not_granting s,
  noop_lem s,
  access_level_updated_lem s,
)

-- Of the events of a known type, exactly those grant access whose type always does, and
-- `access_level_updated` with `is_active` true and the premium level. Exactly those end it whose type
-- always does, and `access_level_updated` with `is_active` false.
pub classify_known :
    (e : Event)
    → is_known e.event_type ≡ true
    → ((classify_event e ≡ granting) ↔ Grants e.event_type e.is_active e.access_level_id)
      × ((classify_event e ≡ expiring) ↔ Expires e.event_type e.is_active)
unfolding classify_event
classify_known e known = (
  meaning_granting e.event_type e.is_active e.access_level_id known,
  meaning_expiring e.event_type e.is_active e.access_level_id known,
)
