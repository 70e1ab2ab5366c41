-- ===== src/Wallet/Balance.antt =====
-- What a user's wallet holds, under the writes of the credits code (app/domain/repositories/credits.py).
use musicfy.Prelude.{ℕ, ◌≡◌, Option, none, some, lookup-insert, arith, ◌==◌, if◌then◌else◌}
use musicfy.Bank.{Wallet, Bank, get_wallet, put_wallet}

abbrev pub coins_of : Option Wallet → ℕ
coins_of none = 0
coins_of (some w) = w.coins_available

abbrev pub held_of : Option Wallet → ℕ
held_of none = 0
held_of (some w) = w.coins_reserved

-- `available` and `reserved` of the user's `WalletView`.
unfoldable pub available : ℕ → Bank → ℕ
available u b = coins_of (get_wallet u b)

unfoldable pub reserved : ℕ → Bank → ℕ
reserved u b = held_of (get_wallet u b)

pub available-put_wallet :
    (u v : ℕ) (w : Wallet) (b : Bank)
    → available u (put_wallet v w b) ≡ (if u == v then w.coins_available else available u b)
unfolding available
available-put_wallet u v w b = ground (arith, lookup-insert u v w b.wallets)

pub reserved-put_wallet :
    (u v : ℕ) (w : Wallet) (b : Bank)
    → reserved u (put_wallet v w b) ≡ (if u == v then w.coins_reserved else reserved u b)
unfolding reserved
reserved-put_wallet u v w b = ground (arith, lookup-insert u v w b.wallets)

pub available_cong : (v : ℕ) (b c : Bank) → c.wallets ≡ b.wallets → available v c ≡ available v b
unfolding available
available_cong v b c e = cc
