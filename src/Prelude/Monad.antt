-- ===== src/Prelude/Monad.antt =====
-- Code that reads and writes a store and may raise: the store comes back after a raise too.
use mathlib.Core.Path.{◌≡◌}
use mathlib.Core.Bool.{Bool, true, false}
use mathlib.Core.Option.{Option, none, some}
use Prim.Native.Nat.{ℕ}
use Prim.Native.String.{String}

-- The exceptions of app/api/errors.py that the modelled code raises.
pub data Error : Type 0 where
  -- `details`: required, available
  insufficient_credits : ℕ → ℕ → Error
  user_not_found : Error
  invalid_session : Error
  lyrics_draft_not_found : Error
  moderation_blocked : String → Error
  validation_failed : String → Error
  webhook_payload_invalid : String → Error
  webhook_signature_invalid : String → Error
  -- `FalProviderError` and `FalTimeout`, with `code` and `message`
  fal_error : String → String → Error
  -- a Python `assert` that failed
  assertion_failed : Error
  runtime_error : String → Error

pub data Result (A : Type 0) : Type 0 where
  ok : A → Result A
  err : Error → Result A

pub ok_inj : {A : Type 0} {a b : A} → ok a ≡ ok b → a ≡ b
ok_inj e = cc

abbrev pub is_ok : {A : Type 0} → Result A → Bool
is_ok (ok _) = true
is_ok (err _) = false

-- A step of a computation that has no store.
abbrev pub and_then : {A B : Type 0} → Result A → (A → Result B) → Result B
and_then (ok a) f = f a
and_then (err e) f = err e

abbrev pub Action : Type 0 → Type 0 → Type 0
Action S A = S → Result A × S

module _ {S : Type 0} where
  abbrev pub pure : {A : Type 0} → A → Action S A
  pure a s = (ok a, s)

  abbrev pub raise : {A : Type 0} → Error → Action S A
  raise e s = (err e, s)

  abbrev pub gets : {A : Type 0} → (S → A) → Action S A
  gets f s = (ok (f s), s)

  abbrev pub modify : (S → S) → Action S (Unit {0})
  modify f s = (ok tt, f s)

  -- `async with session.begin()`: a raise rolls the writes back.
  abbrev pub transaction : {A : Type 0} → Action S A → Action S A
  transaction m s = let (r, s') = m s in elim r [ ok a ↦ (ok a, s') | err e ↦ (err e, s) ]

  -- `try: m except Exception: handler`, with what `m` wrote kept.
  abbrev pub catch : {A : Type 0} → Action S A → (Error → Action S A) → Action S A
  catch m handler s = let (r, s') = m s in elim r [ ok a ↦ (ok a, s') | err e ↦ handler e s' ]

  -- `if c: m else: k`
  abbrev pub branch : {A : Type 0} → Bool → Action S A → Action S A → Action S A
  branch true m k s = m s
  branch false m k s = k s

  abbrev pub or_raise : {A : Type 0} → Option A → Error → Action S A
  or_raise none e = raise e
  or_raise (some a) _ = pure a

infixl 5 ◌>>=◌ ◌>>◌
abbrev pub ◌>>=◌ : {S A B : Type 0} → Action S A → (A → Action S B) → Action S B
◌>>=◌ m f s = let (r, s') = m s in elim r [ ok a ↦ f a s' | err e ↦ (err e, s') ]

abbrev pub ◌>>◌ : {S A B : Type 0} → Action S A → Action S B → Action S B
m >> k = m >>= λ _. k
