-- ===== src/Merge.antt =====
-- The move of a guest's rows to the account that signs in with Apple
-- (app/domain/services/merge.py). Of the tables with an owner, those of `Work` are moved: the
-- drafts of lyrics, the tokens of devices and the events of usage are not in it.
pub mod Laws
use musicfy.Prelude.{
  ℕ, zero, suc, ◌+◌, ◌-◌, ◌*◌, ◌/◌, ◌≤◌, ◌<◌, min, max, String, ◌≡◌, refl, sym, ap, ◌∙◌, subst, ◌≢◌,
  ◌↔◌, ◌⊎◌, inl, inr, ite, Bool, true, false, not, ◌&&◌, ◌||◌, Option, none, some, List, [], ◌∷◌,
  map, arith, ltb, leb, ◌==◌, str_eq, if◌then◌else◌, Bool-cases, Option-cases, get_or, is_some,
  find, truthy, first_some, Error, Result, ok, err, is_ok, Action, pure, raise, gets, modify,
  transaction, catch, branch, or_raise, ◌>>=◌, ◌>>◌, Table, lookup, insert, erase, lookup-insert,
  lookup-erase, size, cut, size-cut, and_then, ok_inj,
}
use musicfy.Prelude.Int.{ℤ}
use musicfy.Bank.{Bank, Entry, Purchase, Wallet, get_wallet, put_wallet, empty_wallet}
use musicfy.Work.Rows.{Work, Job, Track, VideoAsset, VoiceConsent, VoiceProfile}

-- `SET user_id = :to WHERE user_id = :frm`, on the column.
abbrev pub moved : ℕ → ℕ → ℕ → ℕ
moved frm to u = if u == frm then to else u

abbrev pub move_entry : ℕ → ℕ → Entry → Entry
move_entry frm to e = record e { user_id = moved frm to e.user_id }

abbrev pub move_purchase : ℕ → ℕ → Purchase → Purchase
move_purchase frm to p = record p { user_id = moved frm to p.user_id }

abbrev pub move_track : ℕ → ℕ → Track → Track
move_track frm to t = record t { user_id = moved frm to t.user_id }

abbrev pub move_asset : ℕ → ℕ → VideoAsset → VideoAsset
move_asset frm to a = record a { user_id = moved frm to a.user_id }

abbrev pub move_job : ℕ → ℕ → ℕ × Job → ℕ × Job
move_job frm to (id, j) = (id, record j { user_id = moved frm to j.user_id })

abbrev pub move_consent : ℕ → ℕ → ℕ × VoiceConsent → ℕ × VoiceConsent
move_consent frm to (id, c) = (id, record c { user_id = moved frm to c.user_id })

abbrev pub move_profile : ℕ → ℕ → ℕ × VoiceProfile → ℕ × VoiceProfile
move_profile frm to (id, p) = (id, record p { user_id = moved frm to p.user_id })

-- `_reassign_simple`, on the bank's tables and on the others.
unfoldable pub reassign_bank : ℕ → ℕ → Bank → Bank
reassign_bank frm to b = record b {
  ledger = map (move_entry frm to) b.ledger;
  purchases = map (move_purchase frm to) b.purchases;
}

unfoldable pub reassign_simple : ℕ → ℕ → Work → Work
reassign_simple frm to w = record w {
  bank = reassign_bank frm to w.bank;
  jobs = map (move_job frm to) w.jobs;
  tracks = map (move_track frm to) w.tracks;
  assets = map (move_asset frm to) w.assets;
  consents = map (move_consent frm to) w.consents;
  profiles = map (move_profile frm to) w.profiles;
}

abbrev sum_wallets : Wallet → Wallet → Wallet
sum_wallets x y = record {
  coins_available = x.coins_available + y.coins_available;
  coins_reserved = x.coins_reserved + y.coins_reserved;
}

-- `_merge_coin_wallets`: an insert that adds on a conflict, then the deletion of the guest's row.
abbrev move_wallet : ℕ → ℕ → Option Wallet → Bank → Bank
move_wallet frm to none b = b
move_wallet frm to (some guest) b =
    let mine = get_or empty_wallet (get_wallet to b) in
    let c = put_wallet to (sum_wallets mine guest) b in record c { wallets = erase frm c.wallets }

unfoldable pub merge_coin_wallets : ℕ → ℕ → Bank → Bank
merge_coin_wallets frm to b = move_wallet frm to (get_wallet frm b) b

-- `reassign_all`
unfoldable pub reassign_all : ℕ → ℕ → Work → Work
reassign_all frm to w =
    let x = reassign_simple frm to w in record x { bank = merge_coin_wallets frm to x.bank }
