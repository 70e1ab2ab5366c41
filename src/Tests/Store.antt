-- ===== src/Tests/Store.antt =====
-- Purchases, on the store of the tests.
use musicfy.Prelude.{◌+◌, ◌≡◌, refl, arith}
use musicfy.Billing.{apply, dedup_key, environment_of}
use musicfy.Billing.Claims.{apply-keeps_coins}
use musicfy.Billing.Grants.{IsBacked, apply-available}
use musicfy.Billing.Ownership.{HasTakenOver, apply-HasTakenOver}
use musicfy.Wallet.Balance.{available}
use musicfy.Tests.Data.{store, runtime, transaction_of}

store-IsBacked : IsBacked store
store-IsBacked k h = ground arith

apply-available_example :
    available 1 (apply runtime 1 (transaction_of "t3" "pack") store).1 ≡ available 1 store + 100
unfolding dedup_key environment_of
apply-available_example =
    apply-available runtime 1 1 (transaction_of "t3" "pack") store store-IsBacked refl refl

apply-HasTakenOver_example :
    HasTakenOver 2 1
      (transaction_of "t1" "weekly")
      store
      (apply runtime 1 (transaction_of "t1" "weekly") store).1
unfolding dedup_key environment_of
apply-HasTakenOver_example =
    apply-HasTakenOver runtime 2 1 (transaction_of "t1" "weekly") store refl refl refl refl

apply-keeps_coins_example :
    ((apply runtime 2 (transaction_of "t2" "pack") store).1.wallets ≡ store.wallets)
    × ((apply runtime 2 (transaction_of "t2" "pack") store).1.ledger ≡ store.ledger)
unfolding dedup_key environment_of
apply-keeps_coins_example = apply-keeps_coins runtime 2 (transaction_of "t2" "pack") store refl
