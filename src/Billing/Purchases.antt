-- ===== src/Billing/Purchases.antt =====
-- `ProductsRepository` and `PurchasesRepository` (app/domain/repositories/products.py).
use musicfy.Prelude.{
  ℕ, String, Bool, true, false, ◌&&◌, not, Option, none, some, List, [], ◌∷◌, map, find, ◌==◌,
  str_eq, if◌then◌else◌, Action, modify, ok, Table,
}
use musicfy.Enums.{StoreKitEnvironment}
use musicfy.Platform.{Platform}
use musicfy.Bank.{DedupKey, dedup_eq, Product, Purchase, Subscription, Bank, has_otid}

-- `ProductsRepository.get_by_external_id`: the case of the letters does not count.
abbrev pub get_by_external_id : Platform → String → Bank → Option Product
get_by_external_id platform external_id b =
    find
      (λ (p : Product). str_eq (platform.lower p.external_product_id) (platform.lower external_id))
      b.products

abbrev pub is_claimed : DedupKey → List Purchase → Bool
is_claimed k [] = false
is_claimed k (p ∷ ps) = if dedup_eq k p.dedup_key then true else is_claimed k ps

abbrev pub record_unless : Bool → Purchase → Action Bank Bool
record_unless true p b = (ok false, b)
record_unless false p b = (ok true, record b { purchases = p ∷ b.purchases })

-- `PurchasesRepository.record`: says if the key was free.
unfoldable pub record_purchase : Purchase → Action Bank Bool
record_purchase p b = record_unless (is_claimed p.dedup_key b.purchases) p b

abbrev pub owner_of : DedupKey → List Purchase → Option ℕ
owner_of k [] = none
owner_of k (p ∷ ps) = if dedup_eq k p.dedup_key then some p.user_id else owner_of k ps

-- `PurchasesRepository.find_owner_by_dedup_key`
abbrev pub find_owner_by_dedup_key : DedupKey → Bank → Option ℕ
find_owner_by_dedup_key k b = owner_of k b.purchases

abbrev pub env_eq : StoreKitEnvironment → StoreKitEnvironment → Bool
env_eq StoreKitEnvironment.production StoreKitEnvironment.production = true
env_eq StoreKitEnvironment.sandbox StoreKitEnvironment.sandbox = true
env_eq StoreKitEnvironment.xcode StoreKitEnvironment.xcode = true
env_eq _ _ = false

abbrev pub in_chain : String → StoreKitEnvironment → Purchase → Bool
in_chain otid environment p =
    has_otid otid p.original_transaction_id && env_eq p.environment environment

abbrev pub reassign_row : String → StoreKitEnvironment → ℕ → Purchase → Purchase
reassign_row otid environment new_user_id p =
    if in_chain otid environment p && not (p.user_id == new_user_id)
    then record p { user_id = new_user_id }
    else p

-- `PurchasesRepository.reassign_original_transaction`
unfoldable pub reassign_original_transaction :
    String → StoreKitEnvironment → ℕ → Action Bank (Unit {0})
reassign_original_transaction otid environment new_user_id =
    modify
      (λ b. record b { purchases = map (reassign_row otid environment new_user_id) b.purchases })

abbrev pub subscriber : String → Table Subscription → Option ℕ
subscriber otid [] = none
subscriber otid ((u, s) ∷ t) =
    if has_otid otid s.original_transaction_id then some u else subscriber otid t

abbrev pub buyer : String → List Purchase → Option ℕ
buyer otid [] = none
buyer otid (p ∷ ps) =
    if has_otid otid p.original_transaction_id then some p.user_id else buyer otid ps

-- `PurchasesRepository.find_user_by_original_transaction`: a purchase first, a subscription if there
-- is none. `LIMIT 1` takes the first row of the table.
abbrev pub find_user_by_original_transaction : String → Bank → Option ℕ
find_user_by_original_transaction otid b = elim (buyer otid b.purchases) [
  | some u ↦ some u
  | none ↦ subscriber otid b.subscriptions
]
