-- ===== src/Delivery/Claims.antt =====
-- Which events the log of webhooks holds: one rule for each way to build an action that forgets none
-- (app/domain/repositories/webhooks.py).
use musicfy.Prelude.{
  ℕ, String, ◌≡◌, sym, subst, Bool, true, false, Error, Result, ok, err, Action, pure, raise, gets,
  catch, branch, ◌>>=◌, ◌>>◌,
}
use musicfy.Voice.Pipeline.{lift}
use musicfy.Work.Rows.{Work}
use musicfy.Work.Frame.{Framed}
use musicfy.Delivery.Webhook.{is_claimed}

-- An event that is in the log before is there afterwards.
pub record Grows {A : Type 0} (m : Action Work A) : Type 0 where
  pub at :
      (w : Work) (e : String)
      → is_claimed e w.webhooks ≡ true
      → is_claimed e (m w).1.webhooks ≡ true

module _ {A : Type 0} where
  pub Grows-Framed : (id : ℕ) (m : Action Work A) → Framed id m → Grows m
  Grows-Framed id m f = record {
    at = λ w e h. subst (λ l. is_claimed e l ≡ true) (sym ((f.at w).log)) h;
  }

  pub Grows-same : (m : Action Work A) → ((w : Work) → (m w).1 ≡ w) → Grows m
  Grows-same m s = record {
    at = λ w e h. subst (λ v. is_claimed e v.webhooks ≡ true) (sym (s w)) h;
  }

  pub Grows-pure : (a : A) → Grows (pure a)
  Grows-pure a = record { at = λ w e h. h }

  pub Grows-raise : (x : Error) → Grows (raise {A = A} x)
  Grows-raise x = record { at = λ w e h. h }

  pub Grows-gets : (f : Work → A) → Grows (gets f)
  Grows-gets f = record { at = λ w e h. h }

  pub Grows-lift : (r : Result A) → Grows (lift r)
  Grows-lift r = record { at = λ w e h. h }

  pub Grows-branch : (b : Bool) (m k : Action Work A) → Grows m → Grows k → Grows (branch b m k)
  Grows-branch true m k p q = record { at = λ w. p.at w }
  Grows-branch false m k p q = record { at = λ w. q.at w }

  handled :
      (r : Result A) (w : Work) (handler : Error → Action Work A) (e : String)
      → is_claimed e w.webhooks ≡ true
      → ((x : Error) → Grows (handler x))
      → is_claimed e (catch (λ (_ : Work). (r, w)) handler w).1.webhooks ≡ true
  handled (ok a) w handler e h g = h
  handled (err x) w handler e h g = (g x).at w e h

  pub Grows-catch :
      (m : Action Work A) (handler : Error → Action Work A)
      → Grows m
      → ((x : Error) → Grows (handler x))
      → Grows (catch m handler)
  Grows-catch m handler p g = record {
    at = λ w e h. handled (m w).0 (m w).1 handler e (p.at w e h) g;
  }

module _ {A B : Type 0} where
  pub continued :
      (r : Result A) (w : Work) (f : A → Action Work B) (e : String)
      → is_claimed e w.webhooks ≡ true
      → ((a : A) → Grows (f a))
      → is_claimed e (((λ (_ : Work). (r, w)) >>= f) w).1.webhooks ≡ true
  continued (ok a) w f e h g = (g a).at w e h
  continued (err x) w f e h g = h

  pub Grows-bind :
      (m : Action Work A) (f : A → Action Work B)
      → Grows m
      → ((a : A) → Grows (f a))
      → Grows (m >>= f)
  Grows-bind m f p g = record { at = λ w e h. continued (m w).0 (m w).1 f e (p.at w e h) g }

  pub Grows-then : (m : Action Work A) (k : Action Work B) → Grows m → Grows k → Grows (m >> k)
  Grows-then m k p q = record {
    at = λ w e h. continued (m w).0 (m w).1 (λ _. k) e (p.at w e h) (λ _. q);
  }

pub ruleset grow_rules = (
  Grows-pure, Grows-raise, Grows-gets, Grows-lift, Grows-branch, Grows-catch, Grows-bind,
  Grows-then,
)
