-- ===== src/Admin/Laws.antt =====
-- What the calls of the administration do to coins and subscriptions
-- (app/domain/services/admin_service.py).
use musicfy.Prelude.{
  ℕ, ◌+◌, String, ◌≡◌, refl, Bool, true, false, Option, arith, ◌==◌, if◌then◌else◌, Result, ok, err,
  lookup-insert, user_not_found,
}
use musicfy.Prelude.Int.{ℤ}
use musicfy.Bank.{Bank, ensure_wallet, append_ledger, upsert_subscription}
use musicfy.Wallet.Balance.{available}
use musicfy.Wallet.Audit.{IsAudited}
use musicfy.Admin.{is_known_user, ensure_user, grant_credits, grant_subscription}

-- What a gift of coins to user `u` did, by whether the user is known; `v` is any user.
abbrev pub Gives : ℕ → ℕ → ℕ → Bank → Bool → Result ℕ × Bank → Type 0
Gives v u coins b false (r, b') = (r ≡ err user_not_found) × (b' ≡ b)
Gives v u coins b true (r, b') =
    (r ≡ ok (available u b'))
    × (available v b' ≡ (if v == u then available v b + coins else available v b))

grant_credits_lem :
    (v u coins : ℕ) (b : Bank) (t : Bool)
    → is_known_user u b.users ≡ t
    → Gives v u coins b t (grant_credits u coins b)
unfolding grant_credits ensure_user available ensure_wallet append_ledger
grant_credits_lem v u coins b true known = grind (arith, lookup-insert)
grant_credits_lem v u coins b false unknown = grind arith

-- A gift of coins to a known user returns the new balance, which is the old with the coins, and changes
-- nobody else's; for an unknown user it raises and writes nothing.
pub grant_credits-Gives :
    (v u coins : ℕ) (b : Bank)
    → Gives v u coins b (is_known_user u b.users) (grant_credits u coins b)
grant_credits-Gives v u coins b = grant_credits_lem v u coins b (is_known_user u b.users) refl

-- After a gift of coins or a subscription the ledger still explains the available coins of every user.
grants-IsAudited :
    (v u coins : ℕ) (expires_at : Option ℤ) (label : String) (b : Bank)
    → IsAudited v b
    → IsAudited v (grant_credits u coins b).1
      × IsAudited v (grant_subscription u coins expires_at label b).1
unfolding grant_credits grant_subscription ensure_user available ensure_wallet append_ledger
    upsert_subscription
grants-IsAudited v u coins expires_at label b h =
    (grind (arith, lookup-insert), grind (arith, lookup-insert))
