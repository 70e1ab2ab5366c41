-- ===== src/Merge/Laws.antt =====
-- What a merge of two users keeps (app/domain/services/merge.py).
use musicfy.Prelude.{
  ℕ, ◌+◌, ◌≡◌, ◌≢◌, List, [], ◌∷◌, map, arith, ◌==◌, if◌then◌else◌, lookup-insert, lookup-erase,
}
use musicfy.Bank.{Bank, Entry}
use musicfy.Wallet.Balance.{available, reserved}
use musicfy.Wallet.Audit.{IsAudited, credits, debits}
use musicfy.Work.Rows.{Work}
use musicfy.Merge.{move_entry, reassign_bank, reassign_simple, merge_coin_wallets, reassign_all}

-- What a user has after the merge.
abbrev pub merged : ℕ → ℕ → ℕ → (ℕ → ℕ) → ℕ
merged frm to v f = if v == frm then 0 else if v == to then f to + f frm else f v

credits-moved :
    (frm to v : ℕ) (l : List Entry)
    → frm ≢ to
    → credits v (map (move_entry frm to) l) ≡ merged frm to v (λ u. credits u l)
credits-moved frm to v [] ne = ground arith
credits-moved frm to v (e ∷ l) ne = ground (arith, credits-moved frm to v l ne)

debits-moved :
    (frm to v : ℕ) (l : List Entry)
    → frm ≢ to
    → debits v (map (move_entry frm to) l) ≡ merged frm to v (λ u. debits u l)
debits-moved frm to v [] ne = ground arith
debits-moved frm to v (e ∷ l) ne = ground (arith, debits-moved frm to v l ne)

merge_coin_wallets_lem :
    (frm to v : ℕ) (b : Bank)
    → frm ≢ to
    → (available v (merge_coin_wallets frm to b) ≡ merged frm to v (λ u. available u b))
      × (reserved v (merge_coin_wallets frm to b) ≡ merged frm to v (λ u. reserved u b))
      × ((merge_coin_wallets frm to b).ledger ≡ b.ledger)
unfolding merge_coin_wallets available reserved
merge_coin_wallets_lem frm to v b ne = grind (arith, lookup-insert, lookup-erase)

-- After a merge the ledger still explains the available coins of every user, where it did before.
reassign_all-IsAudited :
    (frm to v : ℕ) (w : Work)
    → frm ≢ to
    → ((u : ℕ) → IsAudited u w.bank)
    → IsAudited v (reassign_all frm to w).bank
unfolding reassign_all reassign_simple reassign_bank available
reassign_all-IsAudited frm to v w ne h =
    let b = reassign_bank frm to w.bank in
    ground (
      arith,
      merge_coin_wallets_lem frm to v b ne,
      credits-moved frm to v w.bank.ledger ne,
      debits-moved frm to v w.bank.ledger ne,
      h v,
      h to,
      h frm,
    )
