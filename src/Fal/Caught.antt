-- ===== src/Fal/Caught.antt =====
-- What the pipelines have to catch of a submission (`_submit` of app/domain/providers/fal/client.py).
use musicfy.Prelude.{
  ℕ, String, ◌≡◌, refl, ◌⊎◌, inl, inr, Bool, true, false, not, Option, none, some, arith, leb,
  if◌then◌else◌, Result, ok, err, is_ok, and_then, fal_error,
}
use musicfy.Json.{Json, Fields, obj, get, truth}
use musicfy.Platform.{Platform}
use musicfy.Fal.Http.{Exchange, timed_out, broken, response, Http, Config}
use musicfy.Fal.Parsing.{find_media, to_float, extract_media, request_id_of}
use musicfy.Fal.Calls.{status_lower, read_submission, accept, submit, post_of}

abbrev pub is_status : Json → Bool
is_status (Json.str _) = true
is_status v = not (truth v)

abbrev pub is_number : Json → Bool
is_number (Json.bool _) = true
is_number (Json.int _) = true
is_number (Json.float _) = true
is_number Json.null = true
is_number _ = false

-- What fal documents of the answer to a submission: where it is JSON it is an object whose status is a
-- text, if it has one, and whose duration is a number, if it has one.
pub data IsDocumented : Exchange → Type 0 where
  no_answer : IsDocumented timed_out
  cut_off : (reason : String) → IsDocumented (broken reason)
  not_json : (code : ℕ) (text : String) → IsDocumented (response code text none)
  object :
      (code : ℕ) (text : String) (d : Fields)
      → is_status (get "status" d) ≡ true
      → is_number (find_media d).duration ≡ true
      → IsDocumented (response code text (some (obj d)))

-- A result, or an error that `except (FalProviderError, FalTimeout)` catches.
abbrev pub IsCaught : {A : Type 0} → Result A → Type 0
IsCaught r = is_ok r ≡ true ⊎ ((code message : String) × (r ≡ err (fal_error code message)))

and_then-is_ok :
    {A B : Type 0} (r : Result A) (f : A → Result B)
    → is_ok r ≡ true
    → ((a : A) → is_ok (f a) ≡ true)
    → is_ok (and_then r f) ≡ true
and_then-is_ok (ok a) f e h = h a
and_then-is_ok (err x) f e h = cc

IsCaught-if :
    {A : Type 0} (b : Bool) (code message : String) (r : Result A)
    → is_ok r ≡ true
    → IsCaught (if b then r else err (fal_error code message))
IsCaught-if true code message r h = inl h
IsCaught-if false code message r h = inr (code, message, refl)

refused_if :
    {A : Type 0} (b : Bool) (code message : String) (r : Result A)
    → IsCaught r
    → IsCaught (if b then err (fal_error code message) else r)
refused_if true code message r h = inr (code, message, refl)
refused_if false code message r h = h

module _ (platform : Platform) (http : Http) (config : Config) where
  to_float_lem : (v : Json) → is_number v ≡ true → is_ok (to_float platform v) ≡ true
  unfolding to_float
  to_float_lem Json.null n = refl
  to_float_lem (Json.bool b) n = refl
  to_float_lem (Json.int i) n = refl
  to_float_lem (Json.float i) n = refl
  to_float_lem (Json.str s) n = cc
  to_float_lem (Json.arr l) n = cc
  to_float_lem (Json.obj d) n = cc

  status_lower_lem :
      (v : Json) → is_status v ≡ true → is_ok (status_lower platform http config v) ≡ true
  status_lower_lem (Json.str s) h = refl
  status_lower_lem Json.null h = refl
  status_lower_lem (Json.bool b) h = ground arith
  status_lower_lem (Json.int n) h = ground arith
  status_lower_lem (Json.float n) h = ground arith
  status_lower_lem (Json.arr l) h = ground arith
  status_lower_lem (Json.obj d) h = ground arith

  extract_media_lem :
      (d : Fields)
      → is_number (find_media d).duration ≡ true
      → is_ok (extract_media platform d) ≡ true
  unfolding extract_media
  extract_media_lem d n = and_then-is_ok _ _ (to_float_lem _ n) (λ f. refl)

  read_submission-IsCaught :
      (d : Fields)
      → is_status (get "status" d) ≡ true
      → is_number (find_media d).duration ≡ true
      → IsCaught (read_submission platform http config d)
  unfolding read_submission
  read_submission-IsCaught d s n = IsCaught-if (truth (request_id_of d)) _ _ _ (
      and_then-is_ok (extract_media platform d) _ (extract_media_lem d n) (λ f.
        and_then-is_ok (status_lower platform http config (get "status" d)) _
          (status_lower_lem (get "status" d) s) (λ x. refl)))

  accept-IsCaught :
      (model : String) (e : Exchange)
      → IsDocumented e
      → IsCaught (accept platform http config model e)
  unfolding accept
  accept-IsCaught model e no_answer = inr (_, _, refl)
  accept-IsCaught model e (cut_off _) = inr (_, _, refl)
  accept-IsCaught model e (not_json code _) =
      refused_if (leb 500 code) _ _ _ (refused_if (leb 400 code) _ _ _ (inr (_, _, refl)))
  accept-IsCaught model e (object code _ d s n) =
      refused_if (leb 500 code) _ _ _
        (refused_if (leb 400 code) _ _ _ (read_submission-IsCaught d s n))

  -- A submission that fal answers as it documents gives the result of the submission, or raises one of
  -- the two errors that the pipelines catch.
  pub submit-IsCaught :
      (model : String) (payload : Fields) (webhook_url : Option String) (key : String)
      → IsDocumented (http.post (post_of platform http config model payload webhook_url key))
      → IsCaught (submit platform http config model payload webhook_url key)
  unfolding submit
  submit-IsCaught model payload webhook_url key d = accept-IsCaught model _ d
