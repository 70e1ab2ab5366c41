-- ===== src/Wallet/Effects.antt =====
-- What one call of the wallet does, on every branch (app/domain/services/credits.py).
use musicfy.Prelude.{
  ℕ, ◌+◌, ◌<◌, String, ◌≡◌, ◌≢◌, false, some, arith, ◌==◌, if◌then◌else◌, get_or, Result, ok, err,
  lookup-insert, insufficient_credits,
}
use musicfy.Bank.{
  key_eq, Wallet, Bank, Key, RefType, get_wallet, key_eq_refl, idempotency_exists, get_active_price,
}
use musicfy.Wallet.Service.{refund, Reserved, reserve, charge, capture, release}
use musicfy.Wallet.Balance.{available, reserved}

abbrev pub price : String → Bank → ℕ
price job_type b = get_or 0 (get_active_price job_type b)

-- What `reserve` did for user `v` at the price `p`, by how it ended.
abbrev pub Reserves : ℕ → ℕ → Bank → Result ℕ × Bank → Type 0
Reserves v p b (ok n, b') =
    (n ≡ p) × (available v b' + p ≡ available v b) × (reserved v b' ≡ reserved v b + p)
Reserves v p b (err e, b') =
    (e ≡ insufficient_credits p (available v b)) × (available v b < p) × (b' ≡ b)

-- `reserve` moves exactly the price of the job type from available to reserved and returns it; it
-- raises `InsufficientCredits`, with the required and available coins and no write kept, exactly
-- when the price is more than is available.
pub reserve_effect :
    (v : ℕ) (job_type : String) (b : Bank) → Reserves v (price job_type b) b (reserve v job_type b)
unfolding reserve available reserved
reserve_effect v job_type b = grind (arith, lookup-insert)

-- A call for one user leaves the coins of every other as they were.
reserve_others :
    (u v : ℕ) (job_type : String) (b : Bank)
    → u ≢ v
    → get_wallet u (reserve v job_type b).1 ≡ get_wallet u b
unfolding reserve
reserve_others u v job_type b ne = grind (arith, lookup-insert)

-- A second `capture` of a job returns the same amount and writes nothing.
pub capture_again :
    (j : Reserved) (b : Bank) → capture j (capture j b).1 ≡ (ok j.reserved_credits, (capture j b).1)
unfolding capture
capture_again j b = ground (arith, key_eq_refl (Key.capture j.id))

-- A second `release` of a job writes nothing.
release_again : (j : Reserved) (b : Bank) → release j (release j b).1 ≡ (ok tt, (release j b).1)
unfolding release
release_again j b = ground (arith, key_eq_refl (Key.release j.id))

-- A retry of a `charge` that returned gives the same price and writes nothing, however little is
-- left.
charge_again :
    (v : ℕ) (job_type : String) (key : Key) (ref_type : RefType) (b : Bank) {n : ℕ}
    → (charge v job_type key ref_type b).0 ≡ ok n
    → charge v job_type key ref_type (charge v job_type key ref_type b).1
      ≡ (ok n, (charge v job_type key ref_type b).1)
unfolding charge
charge_again v job_type key ref_type b e = grind (arith, lookup-insert, key_eq_refl key)

-- Reserving and then releasing under a job id that was not released before gives the user back the
-- coins exactly.
pub release-reserve :
    (v id : ℕ) (job_type : String) (b : Bank)
    → (reserve v job_type b).0 ≡ ok (price job_type b)
    → idempotency_exists (Key.release id) b ≡ false
    → let b' =
        (release
          (record { id = id; user_id = v; reserved_credits = price job_type b })
          (reserve v job_type b).1).1 in
      (available v b' ≡ available v b) × (reserved v b' ≡ reserved v b)
unfolding reserve release available reserved
release-reserve v id job_type b e fresh = grind (arith, lookup-insert)

-- The ledger does not tie the settlement of a job together: a `release` that comes after the `capture` of
-- the same job still gives the user the coins, which the capture had spent.
pub release-capture :
    (j : Reserved) (x : Wallet) (b : Bank)
    → idempotency_exists (Key.release j.id) b ≡ false
    → get_wallet j.user_id b ≡ some x
    → available j.user_id (release j (capture j b).1).1 ≡ available j.user_id b + j.reserved_credits
unfolding release capture available
release-capture j x b fresh here = grind (arith, lookup-insert)

-- A refund of what a charge took, each under a key that is new, leaves every user's available coins as
-- they were before the charge.
pub refund-charge :
    (v u : ℕ) (job_type : String) (key key' : Key) (ref_type : RefType) (b : Bank) {n : ℕ}
    → (charge u job_type key ref_type b).0 ≡ ok n
    → idempotency_exists key b ≡ false
    → idempotency_exists key' b ≡ false
    → key_eq key' key ≡ false
    → key_eq key key' ≡ false
    → available v (refund u n key' ref_type (charge u job_type key ref_type b).1).1 ≡ available v b
unfolding charge refund available
refund-charge v u job_type key key' ref_type b e fresh fresh' apart apart' =
    grind (arith, lookup-insert)

-- What a charge that returned under a new key took: exactly what it returned, from its user alone.
pub charge_effect :
    (v u : ℕ) (job_type : String) (key : Key) (ref_type : RefType) (b : Bank) {n : ℕ}
    → (charge u job_type key ref_type b).0 ≡ ok n
    → idempotency_exists key b ≡ false
    → (n ≡ price job_type b)
      × (available v (charge u job_type key ref_type b).1 + (if v == u then n else 0)
          ≡ available v b)
unfolding charge available
charge_effect v u job_type key ref_type b e fresh = grind (arith, lookup-insert)

-- A charge whose coins were refunded still counts as paid: a retry under its key returns the price and
-- takes nothing.
pub charge-refund :
    (u : ℕ) (job_type : String) (key key' : Key) (ref_type : RefType) (b : Bank) {n : ℕ}
    → (charge u job_type key ref_type b).0 ≡ ok n
    → let c = (refund u n key' ref_type (charge u job_type key ref_type b).1).1 in
      charge u job_type key ref_type c ≡ (ok n, c)
unfolding charge refund
charge-refund u job_type key key' ref_type b e = grind (arith, lookup-insert, key_eq_refl key)
