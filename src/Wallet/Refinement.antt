-- ===== src/Wallet/Refinement.antt =====
-- What the wallet promises, without its ledger (app/domain/services/credits.py): coins that are available and
-- coins that are held, for each user, and the keys that were used. `CoinWalletService` refines it.
use musicfy.Prelude.{
  ℕ, ◌+◌, ◌-◌, String, ◌≡◌, refl, ap, ◌∙◌, ◌≢◌, Bool, ◌||◌, none, List, [], ◌∷◌, arith, ltb, ◌==◌,
  if◌then◌else◌, lookup-insert,
}
use musicfy.Bank.{Bank, Key, get_wallet, idempotency_exists, key_eq}
use musicfy.Wallet.Service.{Reserved}
use musicfy.Wallet.Balance.{available, reserved}
use musicfy.Wallet.Effects.{price}
use musicfy.Wallet.Calls.{Call, call, calls, caller, HaveWallets, HaveWallets-call}
use musicfy.Wallet.Service

pub record Purse : Type 0 where
  pub coins : ℕ → ℕ
  pub held : ℕ → ℕ
  pub used : Key → Bool
  pub price_at : String → ℕ

-- A function changed at one place.
abbrev at : ℕ → ℕ → (ℕ → ℕ) → ℕ → ℕ
at v n f u = if u == v then n else f u

abbrev use_key : Key → (Key → Bool) → Key → Bool
use_key k used k' = key_eq k' k || used k'

-- Coins come to a user, or go: the calls by what they promise.
abbrev spend : ℕ → ℕ → Purse → Purse
spend v n p = record p { coins = at v (p.coins v - n) p.coins }

abbrev gain : ℕ → ℕ → Purse → Purse
gain v n p = record p { coins = at v (p.coins v + n) p.coins }

abbrev hold : ℕ → ℕ → Purse → Purse
hold v n p = record p { held = at v (p.held v + n) p.held }

abbrev let_go : ℕ → ℕ → Purse → Purse
let_go v n p = record p { held = at v (p.held v - n) p.held }

abbrev mark : Key → Purse → Purse
mark k p = record p { used = use_key k p.used }

abbrev once : ℕ → Key → Purse → Purse → Purse
once n k done p = if n == 0 then p else if p.used k then p else mark k done

unfoldable pub promise : Call → Purse → Purse
promise (Call.reserve v t) p =
    let n = p.price_at t in if ltb (p.coins v) n then p else hold v n (spend v n p)
promise (Call.charge v t k assist) p =
    let n = p.price_at t in if ltb (p.coins v) n then p else once n k (spend v n p) p
promise (Call.refund v n k assist) p = once n k (gain v n p) p
promise (Call.capture j) p =
    once j.reserved_credits (Key.capture j.id) (let_go j.user_id j.reserved_credits p) p
promise (Call.release j) p =
    once j.reserved_credits (Key.release j.id)
      (gain j.user_id j.reserved_credits (let_go j.user_id j.reserved_credits p)) p

unfoldable pub promises : List Call → Purse → Purse
promises [] p = p
promises (c ∷ cs) p = promises cs (promise c p)

-- What the promise sees of the tables.
abbrev pub purse_of : Bank → Purse
purse_of b = record {
  coins = λ u. available u b;
  held = λ u. reserved u b;
  used = λ k. idempotency_exists k b;
  price_at = λ t. price t b;
}

call-coins :
    (u : ℕ) (c : Call) (b : Bank)
    → get_wallet (caller c) b ≢ none
    → available u (call c b) ≡ (promise c (purse_of b)).coins u
unfolding call promise available reserved Service.reserve Service.charge Service.refund
    Service.capture Service.release
call-coins u (Call.reserve v t) b w = grind (arith, lookup-insert)
call-coins u (Call.charge v t k assist) b w = grind (arith, lookup-insert)
call-coins u (Call.refund v n k assist) b w = grind (arith, lookup-insert)
call-coins u (Call.capture j) b w = grind (arith, lookup-insert)
call-coins u (Call.release j) b w = grind (arith, lookup-insert)

call-held :
    (u : ℕ) (c : Call) (b : Bank)
    → get_wallet (caller c) b ≢ none
    → reserved u (call c b) ≡ (promise c (purse_of b)).held u
unfolding call promise available reserved Service.reserve Service.charge Service.refund
    Service.capture Service.release
call-held u (Call.reserve v t) b w = grind (arith, lookup-insert)
call-held u (Call.charge v t k assist) b w = grind (arith, lookup-insert)
call-held u (Call.refund v n k assist) b w = grind (arith, lookup-insert)
call-held u (Call.capture j) b w = grind (arith, lookup-insert)
call-held u (Call.release j) b w = grind (arith, lookup-insert)

call-used :
    (k' : Key) (c : Call) (b : Bank)
    → idempotency_exists k' (call c b) ≡ (promise c (purse_of b)).used k'
unfolding call promise available reserved Service.reserve Service.charge Service.refund
    Service.capture Service.release
call-used k' (Call.reserve v t) b = grind (arith, lookup-insert)
call-used k' (Call.charge v t k assist) b = grind (arith, lookup-insert)
call-used k' (Call.refund v n k assist) b = grind (arith, lookup-insert)
call-used k' (Call.capture j) b = grind (arith, lookup-insert)
call-used k' (Call.release j) b = grind (arith, lookup-insert)

call-price :
    (t' : String) (c : Call) (b : Bank) → price t' (call c b) ≡ (promise c (purse_of b)).price_at t'
unfolding call promise available reserved Service.reserve Service.charge Service.refund
    Service.capture Service.release
call-price t' (Call.reserve v t) b = grind (arith, lookup-insert)
call-price t' (Call.charge v t k assist) b = grind (arith, lookup-insert)
call-price t' (Call.refund v n k assist) b = grind (arith, lookup-insert)
call-price t' (Call.capture j) b = grind (arith, lookup-insert)
call-price t' (Call.release j) b = grind (arith, lookup-insert)

-- One call does to what the tables show what it promises.
call-Refines :
    (c : Call) (b : Bank)
    → get_wallet (caller c) b ≢ none
    → purse_of (call c b) ≡ promise c (purse_of b)
call-Refines c b w = λ i. record {
  coins = λ u. call-coins u c b w i;
  held = λ u. call-held u c b w i;
  used = λ k. call-used k c b i;
  price_at = λ t. call-price t c b i;
}

-- The wallet with its ledger refines its promise: after any calls by users that have wallets, the available
-- and the held coins of each user, the keys that are used and the prices are what the same calls promise.
pub calls-promises :
    (cs : List Call) (b : Bank)
    → HaveWallets cs b
    → purse_of (calls cs b) ≡ promises cs (purse_of b)
unfolding calls promises
calls-promises [] b h = refl
calls-promises (c ∷ cs) b h =
    calls-promises cs (call c b) (HaveWallets-call cs c b h.1)
    ∙ ap (promises cs) (call-Refines c b h.0)
