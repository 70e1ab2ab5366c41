-- ===== src/Tests/Money.antt =====
-- The coins, on the store of the tests.
use musicfy.Prelude.{ℕ, ◌≡◌, true, false, List, [], ◌∷◌, arith}
use musicfy.Admin.{grant_credits}
use musicfy.Admin.Laws.{Gives, grant_credits-Gives}
use musicfy.Bank.{Key}
use musicfy.Wallet.{Reserved}
use musicfy.Wallet.Balance.{available}
use musicfy.Wallet.Audit.{IsAudited}
use musicfy.Wallet.Calls.{Call, calls, calls-IsAudited}
use musicfy.Wallet.Refinement.{purse_of, promises, calls-promises}
use musicfy.Tests.Data.{store}

abbrev order : Reserved
order = record { id = 7; user_id = 1; reserved_credits = 10 }

abbrev history : List Call
history =
    Call.reserve 1 "song"
    ∷ (Call.capture order ∷ (Call.charge 1 "song" (Key.charge_lyrics "k") false ∷ []))

store-IsAudited : (u : ℕ) → IsAudited u store
unfolding available
store-IsAudited u = ground arith

calls-IsAudited_example : IsAudited 1 (calls history store)
calls-IsAudited_example =
    calls-IsAudited 1 history store (ground arith, (ground arith, (ground arith, tt)))
      (store-IsAudited 1)

calls-promises_example : purse_of (calls history store) ≡ promises history (purse_of store)
calls-promises_example =
    calls-promises history store (ground arith, (ground arith, (ground arith, tt)))

grant_credits-Gives_example : Gives 1 2 30 store true (grant_credits 2 30 store)
grant_credits-Gives_example = grant_credits-Gives 1 2 30 store
