-- ===== src/Wallet/Audit.antt =====
-- The ledger explains the balance: the coins that a user has available are the sum of the ledger
-- entries that move them. An entry `debit_capture` for a job moves none, since its coins had left the
-- available ones by the entry `debit_reserve`.
use musicfy.Prelude.{
  ℕ, String, ◌+◌, ◌≡◌, ◌≢◌, Bool, true, false, ◌&&◌, not, Option, none, some, List, [], ◌∷◌,
  lookup-insert, arith, ◌==◌, if◌then◌else◌,
}
use musicfy.Prelude.Int.{pos_part, neg_part, pos_part-neg, neg_part-neg}
use musicfy.Enums.{CreditLedgerKind}
use musicfy.Bank.{Bank, Entry, Key, RefType, get_wallet}
use musicfy.Wallet.Service.{Reserved, reserve, charge, refund, capture, release}
use musicfy.Wallet.Balance.{available}

abbrev pub is_job : Option RefType → Bool
is_job (some RefType.job) = true
is_job _ = false

abbrev pub is_capture : CreditLedgerKind → Bool
is_capture CreditLedgerKind.debit_capture = true
is_capture _ = false

abbrev pub moves_available : Entry → Bool
moves_available e = not (is_capture e.kind && is_job e.ref_type)

-- The sums of the amounts above and below 0 that moved the user's available coins.
abbrev pub credits : ℕ → List Entry → ℕ
credits u [] = 0
credits u (e ∷ l) =
    (if e.user_id == u && moves_available e then pos_part e.amount else 0) + credits u l

abbrev pub debits : ℕ → List Entry → ℕ
debits u [] = 0
debits u (e ∷ l) =
    (if e.user_id == u && moves_available e then neg_part e.amount else 0) + debits u l

abbrev pub IsAudited : ℕ → Bank → Type 0
IsAudited u b = available u b + debits u b.ledger ≡ credits u b.ledger

pub reserve-IsAudited :
    (u v : ℕ) (job_type : String) (b : Bank) → IsAudited u b → IsAudited u (reserve v job_type b).1
unfolding reserve available
reserve-IsAudited u v job_type b h = grind (arith, lookup-insert, pos_part-neg, neg_part-neg)

pub charge-IsAudited :
    (u v : ℕ) (job_type : String) (key : Key) (ref_type : RefType) (b : Bank)
    → is_job (some ref_type) ≡ false
    → IsAudited u b
    → IsAudited u (charge v job_type key ref_type b).1
unfolding charge available
charge-IsAudited u v job_type key ref_type b r h =
    grind (arith, lookup-insert, pos_part-neg, neg_part-neg)

pub refund-IsAudited :
    (u v units : ℕ) (key : Key) (ref_type : RefType) (b : Bank)
    → get_wallet v b ≢ none
    → IsAudited u b
    → IsAudited u (refund v units key ref_type b).1
unfolding refund available
refund-IsAudited u v units key ref_type b w h = grind (arith, lookup-insert)

pub capture-IsAudited :
    (u : ℕ) (j : Reserved) (b : Bank) → IsAudited u b → IsAudited u (capture j b).1
unfolding capture available
capture-IsAudited u j b h = grind (arith, lookup-insert)

pub release-IsAudited :
    (u : ℕ) (j : Reserved) (b : Bank)
    → get_wallet j.user_id b ≢ none
    → IsAudited u b
    → IsAudited u (release j b).1
unfolding release available
release-IsAudited u j b w h = grind (arith, lookup-insert)

pub IsAudited-cong :
    (v : ℕ) (b c : Bank)
    → c.wallets ≡ b.wallets
    → c.ledger ≡ b.ledger
    → IsAudited v b
    → IsAudited v c
unfolding available
IsAudited-cong v b c e f h = rw (e, f) h
