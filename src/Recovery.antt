-- ===== src/Recovery.antt =====
-- `recover_orphan_jobs` (app/domain/services/recovery.py), which runs when the service starts: a job that was
-- never handed to the provider is failed and its coins go back.
pub mod Laws
use musicfy.Prelude.{
  ℕ, zero, suc, ◌+◌, ◌-◌, ◌*◌, ◌/◌, ◌≤◌, ◌<◌, min, max, String, ◌≡◌, refl, sym, ap, ◌∙◌, subst, ◌≢◌,
  ◌↔◌, ◌⊎◌, inl, inr, ite, Bool, true, false, not, ◌&&◌, ◌||◌, Option, none, some, List, [], ◌∷◌,
  map, arith, ltb, leb, ◌==◌, str_eq, if◌then◌else◌, Bool-cases, Option-cases, get_or, is_some,
  find, truthy, first_some, Error, Result, ok, err, is_ok, Action, pure, raise, gets, modify,
  transaction, catch, branch, or_raise, ◌>>=◌, ◌>>◌, Table, lookup, insert, erase, lookup-insert,
  lookup-erase,
}
use musicfy.Wallet.{release}
use musicfy.Work.Rows.{Job, Work}
use musicfy.Work.Repository.{on_bank, set_failed, list_orphans}
use musicfy.Work.Base.{Settings, reserved_of}

module _ (settings : Settings) where
  -- The body of the loop, in its `try`.
  unfoldable pub recover_job : ℕ → Job → Action Work (Unit {0})
  recover_job id j =
      catch
        (do
          branch (settings.has_credits && not (j.reserved_credits == 0))
              (on_bank (release (reserved_of id j))) (pure tt)
          set_failed id "STARTUP_RECOVERY")
        (λ _. pure tt)

  unfoldable pub recover_jobs : Table Job → Action Work (Unit {0})
  recover_jobs [] = pure tt
  recover_jobs ((id, j) ∷ orphans) = recover_job id j >> recover_jobs orphans

  abbrev number_of : Table Job → ℕ
  number_of [] = 0
  number_of (_ ∷ t) = suc (number_of t)

  unfoldable pub recover_orphan_jobs : Action Work ℕ
  recover_orphan_jobs = do
    orphans ← gets (λ (w : Work). list_orphans w.jobs)
    recover_jobs orphans
    pure (number_of orphans)
