-- ===== src/Fal/Answers.antt =====
-- What the client's reading of fal's answers promises to the pipelines and to the poller
-- (app/domain/providers/fal/client.py).
use musicfy.Prelude.{
  ℕ, ◌<◌, String, ◌≡◌, refl, sym, ap, ◌∙◌, inl, inr, Option, none, some, arith, str_eq, Bool-cases,
  Result, ok, and_then,
}
use musicfy.Json.{obj, Fields, Json}
use musicfy.Fal.Http.{as_object, decoded, Exchange, timed_out, broken, response, Http, Config}
use musicfy.Platform.{Platform}
use musicfy.Fal.Calls.{
  FalStatus, take_result, read_status, status_upper, take_status, fetch_status, url_or, request_url,
}
use Prim.Native.String.{◌++◌}
use text.Mathlib.TextEquality.{eq_iff}

-- An exchange that gave an object and no error code.
abbrev pub Gives : Exchange → Json → Type 0
Gives e j = (code : ℕ) × (text : String) × (e ≡ response code text (some j)) × (code < 400)

-- What is read of an object was read of a body that is one.
pub gave_object :
    {A : Type 0} (body : Option Json) (k : Fields → Result A) (a : A)
    → and_then (decoded body) (λ j. and_then (as_object j) k) ≡ ok a
    → (d : Fields) × (body ≡ some (obj d)) × (k d ≡ ok a)
gave_object none k a h = cc
gave_object (some (Json.obj d)) k a h = (d, refl, h)
gave_object (some Json.null) k a h = cc
gave_object (some (Json.bool _)) k a h = cc
gave_object (some (Json.int _)) k a h = cc
gave_object (some (Json.float _)) k a h = cc
gave_object (some (Json.str _)) k a h = cc
gave_object (some (Json.arr _)) k a h = cc

module _ (platform : Platform) (http : Http) (config : Config) where
  -- The result's url gave a result.
  take_result_completed :
      (id : String) (e : Exchange) (r : FalStatus)
      → take_result platform http config id e ≡ ok r
      → r.status ≡ "COMPLETED"
      → (j : Json) × Gives e j
  unfolding take_result
  take_result_completed id timed_out r h c = cc
  take_result_completed id (broken x) r h c = cc
  take_result_completed id (response code text none) r h c =
      absurd (ground (arith, eq_iff "FAILED" "COMPLETED"))
  take_result_completed id (response code text (some j)) r h c =
      (j, (code, text, refl, ground (arith, eq_iff "FAILED" "COMPLETED")))

  read_status_completed :
      (url id : String) (d : Fields) (r : FalStatus)
      → read_status platform http config url id d ≡ ok r
      → r.status ≡ "COMPLETED"
      → (status_upper platform http config d ≡ "COMPLETED")
        × ((j : Json) × Gives (http.fetch url) j)
  unfolding read_status
  read_status_completed url id d r h c =
      let status = status_upper platform http config d in
      elim (Bool-cases (str_eq status "COMPLETED")) [
        | inl e ↦ (
          (eq_iff status "COMPLETED").0 e,
          take_result_completed id (http.fetch url) r (sym (rw e) ∙ h) c,
        )
        | inr e ↦ absurd (
            ground (
              arith,
              e,
              eq_iff status "COMPLETED",
              eq_iff "IN_QUEUE" "COMPLETED",
              eq_iff status "",
            ))
      ]

  status_code_passed :
      (url id : String) (code : ℕ) (text : String) (body : Option Json) (r : FalStatus)
      → take_status platform http config url id (response code text body) ≡ ok r
      → r.status ≡ "COMPLETED"
      → (code < 400)
        × (and_then
              (decoded body)
              (λ j. and_then (as_object j) (read_status platform http config url id))
            ≡ ok r)
  unfolding take_status
  status_code_passed url id code text body r h c = ground (arith, eq_iff "IN_QUEUE" "COMPLETED")

  take_status_completed :
      (url id : String) (e : Exchange) (r : FalStatus)
      → take_status platform http config url id e ≡ ok r
      → r.status ≡ "COMPLETED"
      → (d : Fields) × Gives e (obj d)
        × (status_upper platform http config d ≡ "COMPLETED")
        × ((j : Json) × Gives (http.fetch url) j)
  unfolding take_status
  take_status_completed url id timed_out r h c = cc
  take_status_completed url id (broken x) r h c = cc
  take_status_completed url id (response code text body) r h c =
      let a = status_code_passed url id code text body r h c in
      let b = gave_object body (read_status platform http config url id) r a.1 in
      let k = read_status_completed url id b.0 r b.2 c in
      (b.0, (code, text, ap (response code text) b.1, a.0), k.0, k.1)

  -- The job is reported as completed only where the status url gave an object whose status reads
  -- COMPLETED, and the result's url gave a result: no error code of either counts as one.
  pub fetch_status_completed :
      (model id : String) (status_url response_url : Option String) (r : FalStatus)
      → fetch_status platform http config model id status_url response_url ≡ ok r
      → r.status ≡ "COMPLETED"
      → (d : Fields) × Gives
          (http.fetch (url_or status_url (request_url platform http config model id ++ "/status")))
          (obj d)
        × (status_upper platform http config d ≡ "COMPLETED")
        × ((j : Json) × Gives
              (http.fetch (url_or response_url (request_url platform http config model id)))
              j)
  unfolding fetch_status
  fetch_status_completed model id status_url response_url r h c = take_status_completed _ id _ r h c
