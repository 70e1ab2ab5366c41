-- ===== src/Lyrics/Drafts.antt =====
-- The drafts of lyrics and their owners (app/domain/services/lyrics_service.py, `get` and
-- `update_content`).
use musicfy.Prelude.{
  ℕ, String, ◌≡◌, refl, Option, none, some, arith, ◌==◌, if◌then◌else◌, Result, ok, err, lookup,
  lookup-insert, lyrics_draft_not_found,
}
use musicfy.Lyrics.{Desk, Draft, edited, own_draft, get_draft, update_content}

-- How an update of a draft ends, by whether the user has it; `j` is any draft.
abbrev pub Updates : ℕ → ℕ → ℕ → String → Desk → Option Draft → Result Draft × Desk → Type 0
Updates u id j content d none (r, d') = (r ≡ err lyrics_draft_not_found) × (d' ≡ d)
Updates u id j content d (some draft) (r, d') =
    (r ≡ ok (record draft { content = content; source = edited }))
    × ((get_draft u id d').0 ≡ r)
    × (lookup j d'.drafts ≡ (
        if j == id
        then some (record draft { content = content; source = edited })
        else lookup j d.drafts))
    × (d'.bank ≡ d.bank)

own_draft-user_id :
    (u : ℕ) (found : Option Draft) {draft : Draft}
    → own_draft u found ≡ some draft
    → draft.user_id ≡ u
own_draft-user_id u none e = ground (arith, e)
own_draft-user_id u (some x) e = ground (arith, e)

update_content_lem :
    (u id j : ℕ) (content : String) (d : Desk) (found : Option Draft)
    → own_draft u (lookup id d.drafts) ≡ found
    → Updates u id j content d found (update_content u id content d)
unfolding update_content get_draft
update_content_lem u id j content d none e = ground (arith, e)
update_content_lem u id j content d (some draft) e =
    let own = own_draft-user_id u (lookup id d.drafts) e in
    let x = record draft { content = content; source = edited } in
    (
      ground (arith, e),
      ground (arith, e, own, lookup-insert id id x d.drafts),
      ground (arith, e, lookup-insert j id x d.drafts),
      ground (arith, e),
    )

-- An update of a draft that is not there, or is another user's, raises and writes nothing; any other
-- changes the content and the source of that draft alone, and the user reads back what was written.
update_content-Updates :
    (u id j : ℕ) (content : String) (d : Desk)
    → Updates u id j content d (own_draft u (lookup id d.drafts)) (update_content u id content d)
update_content-Updates u id j content d =
    update_content_lem u id j content d (own_draft u (lookup id d.drafts)) refl
