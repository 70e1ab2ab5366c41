-- ===== src/Lyrics.antt =====
-- `LyricsService` (app/domain/services/lyrics_service.py) with its repository
-- (app/domain/repositories/lyrics.py). `op_id` is the caller's idempotency key, or the fresh UUID that
-- the method makes where there is none; `draft_id` is the UUID that the table gives a new draft.
pub mod Saga
pub mod Drafts
use musicfy.Prelude.{
  ℕ, zero, suc, ◌+◌, ◌-◌, ◌*◌, ◌/◌, ◌≤◌, ◌<◌, min, max, String, ◌≡◌, refl, sym, ap, ◌∙◌, subst, ◌≢◌,
  ◌↔◌, ◌⊎◌, inl, inr, ite, Bool, true, false, not, ◌&&◌, ◌||◌, Option, none, some, List, [], ◌∷◌,
  map, arith, ltb, leb, ◌==◌, str_eq, if◌then◌else◌, Bool-cases, Option-cases, get_or, is_some,
  find, truthy, first_some, Error, Result, ok, err, is_ok, Action, pure, raise, gets, modify,
  transaction, catch, branch, or_raise, ◌>>=◌, ◌>>◌, Table, lookup, insert, erase, lookup-insert,
  lookup-erase, size, cut, size-cut, and_then, ok_inj, runtime_error, fal_error,
  lyrics_draft_not_found,
}
use musicfy.Work.Base.{crashed, Reply, done, failure}
use musicfy.Json.{Json}
use musicfy.Bank.{Bank, Key, RefType}
use musicfy.Wallet.{charge, refund}
use musicfy.Provider.{Fal}

pub data Source : Type 0 where
  generated edited : Source

-- `lyrics_drafts`; what only the API reads back is left out.
pub record Draft : Type 0 where
  pub user_id : ℕ
  pub content : String
  pub source : Source

pub record Desk : Type 0 where
  pub bank : Bank
  pub drafts : Table Draft

abbrev pub on_desk : {A : Type 0} → Action Bank A → Action Desk A
on_desk m d = let (r, b) = m d.bank in (r, record d { bank = b })

-- The answer of the provider, as a value or as a raise.
abbrev pub answer : {A : Type 0} → Reply A → Action Desk A
answer (done a) = pure a
answer (failure code message) = raise (fal_error code message)
answer (crashed e) = raise (runtime_error e)

abbrev put_draft : ℕ → Draft → Action Desk Draft
put_draft draft_id draft d = (ok draft, record d { drafts = insert draft_id draft d.drafts })

-- `LyricsRepository.create`
unfoldable pub create : ℕ → Draft → Action Desk Draft
create = put_draft

-- The handler of `except Exception`: the coins go back, and the error goes on.
unfoldable pub give_back : {A : Type 0} → ℕ → ℕ → Key → RefType → Error → Action Desk A
give_back user_id charged key ref_type e = do on_desk (refund user_id charged key ref_type); raise e

unfoldable pub write_lyrics : ℕ → ℕ → Reply String → Action Desk Draft
write_lyrics user_id draft_id reply = do
  content ← answer reply
  create draft_id (record { user_id = user_id; content = content; source = generated })

module _ (fal : Fal) where
  unfoldable pub generate : ℕ → String → ℕ → Json → Json → Json → Json → Action Desk Draft
  generate user_id op_id draft_id prompt language genre mood = do
    charged ← on_desk (charge user_id "lyrics" (Key.charge_lyrics op_id) RefType.lyrics)
    catch (write_lyrics user_id draft_id (fal.generate_lyrics prompt language genre mood))
        (give_back user_id charged (Key.refund_lyrics op_id) RefType.lyrics)

  unfoldable pub assist : ℕ → String → String → String → Json → Json → Action Desk (String × Json)
  assist user_id op_id action target text language = do
    charged ← on_desk (charge user_id "lyrics" (Key.charge_assist op_id) RefType.lyrics_assist)
    catch (answer (fal.assist_text action target text language))
        (give_back user_id charged (Key.refund_assist op_id) RefType.lyrics_assist)

-- The draft, where it is the user's.
abbrev pub own_draft : ℕ → Option Draft → Option Draft
own_draft user_id none = none
own_draft user_id (some draft) = if draft.user_id == user_id then some draft else none

-- The method `get`
unfoldable pub get_draft : ℕ → ℕ → Action Desk Draft
get_draft user_id draft_id = do
  found ← gets (λ (d : Desk). own_draft user_id (lookup draft_id d.drafts))
  or_raise found lyrics_draft_not_found

unfoldable pub update_content : ℕ → ℕ → String → Action Desk Draft
update_content user_id draft_id content = do
  draft ← get_draft user_id draft_id
  put_draft draft_id (record draft { content = content; source = edited })
