-- ===== src/Generation/Laws.antt =====
-- What the creation of a song promises (app/domain/services/generation_service.py).
use musicfy.Prelude.{
  ℕ, String, ◌≡◌, ◌⊎◌, Bool, true, Option, none, some, ◌∷◌, Result, ok, err, moderation_blocked,
}
use musicfy.Generation.Service.{blocked_case, existing_job, JobRequest, texts_of, Generator}
use musicfy.Wallet.Effects.{price}
use musicfy.Generation.Moderation.{screen_text}
use musicfy.Work.Rows.{Job, Work}
use musicfy.Generation.Making.{Makes}

module _ (g : Generator) (paid : g.deps.settings.has_credits ≡ true) where
  -- What the screening finds in the texts of a request.
  abbrev pub screened : JobRequest → Option String
  screened r = screen_text g.deps.platform g.contains (texts_of g r.payload)

  -- How a request for a song ends: blocked, answered with the job that its key made before, or made anew.
  abbrev pub Creates : ℕ → JobRequest → Work → Result (ℕ × Bool) × Work → Type 0
  Creates id r w x =
      ((reason : String) × (screened r ≡ some reason)
        × (x ≡ (
          err (moderation_blocked reason),
          record w { cases = blocked_case g reason r ∷ w.cases },
        )))
      ⊎ ((screened r ≡ none)
          × (((found : ℕ × Job) × (existing_job g r w ≡ some found) × (x ≡ (ok (found.0, true), w)))
              ⊎ ((existing_job g r w ≡ none) × Makes g paid id r (price "song" w.bank) w x)))
