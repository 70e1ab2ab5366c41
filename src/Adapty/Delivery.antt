-- ===== src/Adapty/Delivery.antt =====
-- An event is applied once, however often it is delivered
-- (app/domain/services/adapty_webhook_service.py).
use musicfy.Prelude.{ℕ, ◌≡◌, List, [], ◌∷◌, Result, ok, err}
use musicfy.Adapty.Service.{
  Database, data_error, Body, Outcome, ignored, unknown, duplicate, applied, handle,
}
use musicfy.Platform.{Platform}
use musicfy.Json.{Json}
use musicfy.Bank.{Bank}
use musicfy.Adapty.Journal.{Grows}

-- What the second delivery of an event answers, where the first answered `o`.
abbrev pub redelivered : Outcome → Outcome
redelivered applied = duplicate
redelivered (ignored reason) = ignored reason
redelivered (unknown event_type) = unknown event_type
redelivered duplicate = duplicate

-- What an answer says of the writes: only an event that is applied writes anything.
abbrev pub Writes : Outcome → Bank → Bank → Type 0
Writes applied b c = Unit
Writes _ b c = c ≡ b

-- A run from `b`, and a second run of the same from `d`: the second answers as a redelivery and writes
-- nothing, or the first raised the error of the database.
abbrev pub Again : Result Outcome × Bank → Result Outcome × Bank → Bank → Bank → Type 0
Again (ok o, c) second b d = (second ≡ (ok (redelivered o), d)) × Writes o b c
Again (err x, c) second b d = x ≡ data_error

-- The same, where a raise undoes what was written.
abbrev pub Redelivers : Result Outcome × Bank → Result Outcome × Bank → Bank → Bank → Type 0
Redelivers (ok o, c) second b d = (second ≡ (ok (redelivered o), d)) × Writes o b c
Redelivers (err x, c) second b d = (x ≡ data_error) × (c ≡ b)

-- A raise is the database's, and any other end keeps what later deliveries read.
abbrev pub Ended : Bank → Result Outcome × Bank → Type 0
Ended b (ok o, c) = Grows b c
Ended b (err x, c) = x ≡ data_error

module _ (platform : Platform) (fallback : ℕ) (db : Database) where
  -- The bank after a sequence of deliveries.
  abbrev pub after_deliveries : List Body → Bank → Bank
  after_deliveries [] b = b
  after_deliveries (body ∷ bodies) b =
      after_deliveries bodies (handle platform fallback db body b).1
