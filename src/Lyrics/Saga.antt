-- ===== src/Lyrics/Saga.antt =====
-- The charge and the refund around a call of the provider
-- (app/domain/services/lyrics_service.py, `generate`).
use musicfy.Prelude.{
  ℕ, ◌+◌, String, ◌≡◌, refl, ap, false, some, arith, ◌==◌, if◌then◌else◌, ok, err, lookup, insert,
  lookup-insert,
}
use musicfy.Lyrics.{fal_error, Desk, Draft, generated, generate, write_lyrics, give_back, create}
use musicfy.Json.{Json}
use musicfy.Bank.{Bank, Key, RefType, idempotency_exists}
use musicfy.Wallet.{charge, refund}
use musicfy.Wallet.Balance.{available}
use musicfy.Wallet.Effects.{price, charge_effect, refund-charge, charge-refund}
use musicfy.Work.Base.{done, failure}
use musicfy.Provider.{Fal}

refund_lem :
    (u n : ℕ) (key : Key) (ref_type : RefType) (b : Bank) → (refund u n key ref_type b).0 ≡ ok tt
unfolding refund
refund_lem u n key ref_type b = ground arith

-- The desk after the coins of a failed generation went back.
abbrev pub refunded : ℕ → String → ℕ → Desk → Desk
refunded u op n d = record d {
  bank =
      (refund u n (Key.refund_lyrics op) RefType.lyrics
        (charge u "lyrics" (Key.charge_lyrics op) RefType.lyrics d.bank).1).1;
}

generate_failed_lem :
    (fal : Fal) (u : ℕ) (op : String) (id : ℕ) (prompt language genre mood : Json) (d : Desk)
    {n : ℕ} {code message : String}
    → (charge u "lyrics" (Key.charge_lyrics op) RefType.lyrics d.bank).0 ≡ ok n
    → fal.generate_lyrics prompt language genre mood ≡ failure code message
    → generate fal u op id prompt language genre mood d
      ≡ (err (fal_error code message), refunded u op n d)
unfolding generate write_lyrics give_back
generate_failed_lem fal u op id prompt language genre mood d {n} paid down =
    let b = (charge u "lyrics" (Key.charge_lyrics op) RefType.lyrics d.bank).1 in
    ground (arith, paid, down, refund_lem u n (Key.refund_lyrics op) RefType.lyrics b)

-- A generation that the provider fails raises the provider's error, leaves the drafts alone and every
-- user's available coins as they were, where neither of its two keys was used.
pub generate_failed :
    (fal : Fal) (v u : ℕ) (op : String) (id : ℕ) (prompt language genre mood : Json) (d : Desk)
    {n : ℕ} {code message : String}
    → (charge u "lyrics" (Key.charge_lyrics op) RefType.lyrics d.bank).0 ≡ ok n
    → idempotency_exists (Key.charge_lyrics op) d.bank ≡ false
    → idempotency_exists (Key.refund_lyrics op) d.bank ≡ false
    → fal.generate_lyrics prompt language genre mood ≡ failure code message
    → let r = generate fal u op id prompt language genre mood d in
      (r.0 ≡ err (fal_error code message))
      × (available v r.1.bank ≡ available v d.bank)
      × (r.1.drafts ≡ d.drafts)
generate_failed fal v u op id prompt language genre mood d paid fresh fresh' down = ground (
  arith,
  generate_failed_lem fal u op id prompt language genre mood d paid down,
  refund-charge v u "lyrics" (Key.charge_lyrics op) (Key.refund_lyrics op) RefType.lyrics d.bank
      paid fresh fresh' refl refl,
)

generate_done_lem :
    (fal : Fal) (u : ℕ) (op : String) (id : ℕ) (prompt language genre mood : Json) (d : Desk)
    {n : ℕ} {content : String}
    → (charge u "lyrics" (Key.charge_lyrics op) RefType.lyrics d.bank).0 ≡ ok n
    → fal.generate_lyrics prompt language genre mood ≡ done content
    → let draft : Draft = record { user_id = u; content = content; source = generated } in
      generate fal u op id prompt language genre mood d ≡ (
        ok draft,
        record d {
          bank = (charge u "lyrics" (Key.charge_lyrics op) RefType.lyrics d.bank).1;
          drafts = insert id draft d.drafts;
        },
      )
unfolding generate write_lyrics create
generate_done_lem fal u op id prompt language genre mood d paid up = ground (arith, paid, up)

-- A generation that the provider answers returns the draft, keeps it under its id, and takes exactly the
-- price from its user and nothing from another, where its key is new and the charge is covered.
pub generate_done :
    (fal : Fal) (v u : ℕ) (op : String) (id : ℕ) (prompt language genre mood : Json) (d : Desk)
    {n : ℕ} {content : String}
    → (charge u "lyrics" (Key.charge_lyrics op) RefType.lyrics d.bank).0 ≡ ok n
    → idempotency_exists (Key.charge_lyrics op) d.bank ≡ false
    → fal.generate_lyrics prompt language genre mood ≡ done content
    → let draft : Draft = record { user_id = u; content = content; source = generated } in
      let r = generate fal u op id prompt language genre mood d in
      (r.0 ≡ ok draft)
      × (lookup id r.1.drafts ≡ some draft)
      × (available v r.1.bank + (if v == u then price "lyrics" d.bank else 0) ≡ available v d.bank)
generate_done fal v u op id prompt language genre mood d {content = content} paid fresh up =
    let draft : Draft = record { user_id = u; content = content; source = generated } in
    ground (
      arith,
      generate_done_lem fal u op id prompt language genre mood d paid up,
      lookup-insert id id draft d.drafts,
      charge_effect v u "lyrics" (Key.charge_lyrics op) RefType.lyrics d.bank paid fresh,
    )

-- A client that sends its idempotency key again after a failed generation gets its lyrics for
-- nothing: the second call returns the draft and every user has the coins of before the first.
pub generate_retried :
    (fal fal' : Fal) (v u : ℕ) (op : String) (id : ℕ) (prompt language genre mood : Json) (d : Desk)
    {n : ℕ} {code message content : String}
    → (charge u "lyrics" (Key.charge_lyrics op) RefType.lyrics d.bank).0 ≡ ok n
    → idempotency_exists (Key.charge_lyrics op) d.bank ≡ false
    → idempotency_exists (Key.refund_lyrics op) d.bank ≡ false
    → fal.generate_lyrics prompt language genre mood ≡ failure code message
    → fal'.generate_lyrics prompt language genre mood ≡ done content
    → let d1 = (generate fal u op id prompt language genre mood d).1 in
      let r = generate fal' u op id prompt language genre mood d1 in
      (r.0 ≡ ok (record { user_id = u; content = content; source = generated }))
      × (available v r.1.bank ≡ available v d.bank)
generate_retried fal fal' v u op id prompt language genre mood d {n = n} {content = content} paid
      fresh fresh' down up =
    let again =
      charge-refund u "lyrics" (Key.charge_lyrics op) (Key.refund_lyrics op) RefType.lyrics d.bank
        paid in
    let d1 = refunded u op n d in
    ground (
      arith,
      again,
      generate_failed_lem fal u op id prompt language genre mood d paid down,
      generate_done_lem fal' u op id prompt language genre mood d1 (ap (λ r. r.0) again) up,
      refund-charge v u "lyrics" (Key.charge_lyrics op) (Key.refund_lyrics op) RefType.lyrics d.bank
          paid fresh fresh' refl refl,
    )
