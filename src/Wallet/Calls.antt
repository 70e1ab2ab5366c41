-- ===== src/Wallet/Calls.antt =====
-- Any sequence of calls of `CoinWalletService` (app/domain/services/credits.py).
use musicfy.Prelude.{
  ℕ, String, ◌≢◌, refl, none, true, false, List, [], ◌∷◌, lookup-insert, arith, Bool,
}
use musicfy.Bank.{Bank, Key, RefType, get_wallet}
use musicfy.Wallet.Service
use musicfy.Wallet.Service.{Reserved}
use musicfy.Wallet.Audit.{
  IsAudited, reserve-IsAudited, charge-IsAudited, refund-IsAudited, capture-IsAudited,
  release-IsAudited,
}

-- A call with its arguments. The callers of `charge` and `refund` are the lyrics methods, which
-- pass `ref_type` `lyrics` or `lyrics_assist`.
pub data Call : Type 0 where
  reserve : ℕ → String → Call
  charge : ℕ → String → Key → Bool → Call
  refund : ℕ → ℕ → Key → Bool → Call
  capture release : Reserved → Call

abbrev pub lyrics_ref : Bool → RefType
lyrics_ref true = RefType.lyrics_assist
lyrics_ref false = RefType.lyrics

-- The bank after a call, whether it returned or raised.
unfoldable pub call : Call → Bank → Bank
call (Call.reserve v t) b = (Service.reserve v t b).1
call (Call.charge v t k assist) b = (Service.charge v t k (lyrics_ref assist) b).1
call (Call.refund v n k assist) b = (Service.refund v n k (lyrics_ref assist) b).1
call (Call.capture j) b = (Service.capture j b).1
call (Call.release j) b = (Service.release j b).1

unfoldable pub calls : List Call → Bank → Bank
calls [] b = b
calls (c ∷ cs) b = calls cs (call c b)

abbrev pub caller : Call → ℕ
caller (Call.reserve v _) = v
caller (Call.charge v _ _ _) = v
caller (Call.refund v _ _ _) = v
caller (Call.capture j) = j.user_id
caller (Call.release j) = j.user_id

-- Every caller has a wallet.
abbrev pub HaveWallets : List Call → Bank → Type 0
HaveWallets [] b = Unit
HaveWallets (c ∷ cs) b = (get_wallet (caller c) b ≢ none) × HaveWallets cs b

-- No call removes a wallet.
pub call-keeps_wallet :
    (v : ℕ) (c : Call) (b : Bank) → get_wallet v b ≢ none → get_wallet v (call c b) ≢ none
unfolding call Service.reserve Service.charge Service.refund Service.capture Service.release
call-keeps_wallet v (Call.reserve w t) b h = grind (arith, lookup-insert)
call-keeps_wallet v (Call.charge w t k assist) b h = grind (arith, lookup-insert)
call-keeps_wallet v (Call.refund w n k assist) b h = grind (arith, lookup-insert)
call-keeps_wallet v (Call.capture j) b h = grind (arith, lookup-insert)
call-keeps_wallet v (Call.release j) b h = grind (arith, lookup-insert)

pub HaveWallets-call :
    (cs : List Call) (c : Call) (b : Bank) → HaveWallets cs b → HaveWallets cs (call c b)
HaveWallets-call [] c b h = tt
HaveWallets-call (d ∷ cs) c b h =
    (call-keeps_wallet (caller d) c b h.0, HaveWallets-call cs c b h.1)

call-IsAudited :
    (u : ℕ) (c : Call) (b : Bank)
    → get_wallet (caller c) b ≢ none
    → IsAudited u b
    → IsAudited u (call c b)
unfolding call
call-IsAudited u (Call.reserve v t) b w h = reserve-IsAudited u v t b h
call-IsAudited u (Call.charge v t k true) b w h = charge-IsAudited u v t k _ b refl h
call-IsAudited u (Call.charge v t k false) b w h = charge-IsAudited u v t k _ b refl h
call-IsAudited u (Call.refund v n k assist) b w h = refund-IsAudited u v n k _ b w h
call-IsAudited u (Call.capture j) b w h = capture-IsAudited u j b h
call-IsAudited u (Call.release j) b w h = release-IsAudited u j b w h

-- After any calls by users that have wallets, every user's available coins are still the sum of the
-- ledger entries that move them.
pub calls-IsAudited :
    (u : ℕ) (cs : List Call) (b : Bank)
    → HaveWallets cs b
    → IsAudited u b
    → IsAudited u (calls cs b)
unfolding calls
calls-IsAudited u [] b w h = h
calls-IsAudited u (c ∷ cs) b w h =
    calls-IsAudited u cs (call c b) (HaveWallets-call cs c b w.1) (call-IsAudited u c b w.0 h)
