-- ===== src/Wallet/Service.antt =====
-- The methods of `CoinWalletService` (app/domain/services/credits.py). Each is one database
-- transaction, and the row lock makes it atomic. `price_coins` and `reserved_credits` are never below 0, so
-- `<= 0` is a test for 0.
use musicfy.Prelude.{
  ℕ, ◌+◌, ◌-◌, String, none, some, get_or, not, ltb, ◌==◌, if◌then◌else◌, Action, pure, raise, gets,
  modify, transaction, insufficient_credits, ◌>>=◌, ◌>>◌,
}
use musicfy.Prelude.Int.{pos, neg}
use musicfy.Enums.{CreditLedgerKind, debit_reserve, debit_capture, credit_release, credit_refund}
use musicfy.Bank.{
  Wallet, Entry, Key, RefType, Bank, get_wallet, put_wallet, empty_wallet, ensure_wallet,
  append_ledger, get_active_price,
}

-- What the wallet reads of a `Job`.
pub record Reserved : Type 0 where
  pub id : ℕ
  pub user_id : ℕ
  pub reserved_credits : ℕ

abbrev pub entry : ℕ → CreditLedgerKind → Entry
entry user_id kind = record {
  user_id = user_id;
  kind = kind;
  amount = pos 0;
  source = none;
  ref_type = none;
  idempotency_key = none;
}

unfoldable pub price_of : String → Action Bank ℕ
unfolding get_active_price
price_of job_type = gets (λ b. get_or 0 (get_active_price job_type b))

-- The body of `reserve` for a price above 0.
unfoldable pub reserve_price : ℕ → ℕ → Action Bank ℕ
unfolding ensure_wallet append_ledger
reserve_price user_id price = do
  wallet ← ensure_wallet user_id
  if ltb wallet.coins_available price
      then raise (insufficient_credits price wallet.coins_available)
      else (do
        modify (
            put_wallet user_id (record {
              coins_available = wallet.coins_available - price;
              coins_reserved = wallet.coins_reserved + price;
            }))
        append_ledger (record (entry user_id debit_reserve) { amount = neg price })
        pure price)

unfoldable pub reserve : ℕ → String → Action Bank ℕ
unfolding price_of reserve_price
reserve user_id job_type =
    transaction
      (do price ← price_of job_type; if price == 0 then pure 0 else reserve_price user_id price)

-- The body of `charge` for a price above 0: the ledger decides first if the call is a retry.
unfoldable pub charge_price : ℕ → ℕ → Key → RefType → Action Bank ℕ
unfolding ensure_wallet append_ledger
charge_price user_id price key ref_type = do
  wallet ← ensure_wallet user_id
  newly ← append_ledger (record (entry user_id debit_capture) {
    amount = neg price;
    ref_type = some ref_type;
    idempotency_key = some key;
  })
  if not newly
      then pure price
      else if ltb wallet.coins_available price
      then raise (insufficient_credits price wallet.coins_available)
      else (do
        modify (
            put_wallet user_id (record wallet { coins_available = wallet.coins_available - price }))
        pure price)

unfoldable pub charge : ℕ → String → Key → RefType → Action Bank ℕ
unfolding price_of charge_price
charge user_id job_type key ref_type = transaction (do
  price ← price_of job_type
  if price == 0 then pure 0 else charge_price user_id price key ref_type)

-- `UPDATE` of a wallet that is there; nothing is done where there is none.
abbrev pub update_wallet : ℕ → (Wallet → Wallet) → Action Bank (Unit {0})
update_wallet user_id f b = elim (get_wallet user_id b) [
  | none ↦ pure tt b
  | some w ↦ modify (put_wallet user_id (f w)) b
]

unfoldable pub refund : ℕ → ℕ → Key → RefType → Action Bank (Unit {0})
unfolding append_ledger
refund user_id units key ref_type b =
    if units == 0
    then pure tt b
    else transaction
        (do
          newly ← append_ledger (record (entry user_id credit_refund) {
            amount = pos units;
            ref_type = some ref_type;
            idempotency_key = some key;
          })
          if newly
              then update_wallet user_id
                  (λ w. record w { coins_available = w.coins_available + units })
              else pure tt)
        b

-- `max(0, reserved - units)` is the truncated subtraction.
unfoldable pub capture : Reserved → Action Bank ℕ
unfolding append_ledger
capture j b =
    if j.reserved_credits == 0
    then pure 0 b
    else transaction
        (do
          newly ← append_ledger (record (entry j.user_id debit_capture) {
            amount = neg j.reserved_credits;
            ref_type = some RefType.job;
            idempotency_key = some (Key.capture j.id);
          })
          if not newly then pure j.reserved_credits else (do
            update_wallet j.user_id
                (λ w. record w { coins_reserved = w.coins_reserved - j.reserved_credits })
            pure j.reserved_credits))
        b

unfoldable pub release : Reserved → Action Bank (Unit {0})
unfolding append_ledger
release j b =
    if j.reserved_credits == 0
    then pure tt b
    else transaction
        (do
          newly ← append_ledger (record (entry j.user_id credit_release) {
            amount = pos j.reserved_credits;
            ref_type = some RefType.job;
            idempotency_key = some (Key.release j.id);
          })
          if newly
              then update_wallet j.user_id (λ w. record {
                coins_available = w.coins_available + j.reserved_credits;
                coins_reserved = w.coins_reserved - j.reserved_credits;
              })
              else pure tt)
        b

-- The method `wallet`: a user with no row has no coins.
unfoldable pub wallet : ℕ → Action Bank Wallet
wallet user_id = gets (λ b. get_or empty_wallet (get_wallet user_id b))
