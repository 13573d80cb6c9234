-- ===== src/Engine/Commit.antt =====
-- The commit point of `run_job` in backend/src/engine.rs.
use ryu_subtitles.Prelude.{
  ◌≡◌, ◌≢◌, refl, ◌∙◌, ◌⊎◌, inl, inr, Bool, true, false, List, Result, ok, err,
}
use ryu_subtitles.Cues.Model.{Cue}
use ryu_subtitles.Store.Model.{Platform, Job, Db, StoreError}
use ryu_subtitles.Store.Jobs.{complete_if_active}
use ryu_subtitles.Store.Jobs.Closed.{Closed}
use ryu_subtitles.Store.Jobs.Outcome.{changed-answer}
use ryu_subtitles.Engine.Quiet.{Quiet-prepare, Quiet-commit}
use ryu_subtitles.Engine.Model.{
  Effect, World, Around, Stop, and_then, ◌>>=◌, go_on, found, settle_access, write,
}
use ryu_subtitles.Engine.Run.{commit, prepare, publish, work, run_job}

module _ {p : Platform} (a : Around p) where
  -- Where the job has ended, its completion answers no or fails.
  commit-Closed :
      (job : Job p) (w : World p) → Closed p job.id (found a w) → (commit a job w).0 ≢ ok true
  unfolding commit write complete_if_active
  commit-Closed job w closed h = settled _ refl h
    where
      settled :
          (r : Result StoreError (Bool × Db p))
          → complete_if_active p job.id (a.now w.time) (found a w) ≡ r
          → (settle_access a w r).0 ≢ ok true
      settled (ok out) e h = cc (changed-answer p job.id _ (found a w) out closed e)
      settled (err x) e h = cc

  after_answer :
      (job : Job p) (cues : List Cue) (log : List Effect) (done : Result Stop Bool × World p)
      → done.1.log ≡ log
      → ((and_then (λ c. go_on c >>= λ _. publish a job cues) done).1.log ≡ log)
        ⊎ (done.0 ≡ ok true)
  unfolding ◌>>=◌
  after_answer job cues log (ok true, w) h = inr refl
  after_answer job cues log (ok false, w) h = inl h
  after_answer job cues log (err e, w) h = inl h

  after_prepare :
      (job : Job p) (log : List Effect) (done : Result Stop (List Cue) × World p)
      → done.1.log ≡ log
      → ((and_then (λ cues. commit a job >>= λ c. go_on c >>= λ _. publish a job cues) done).1.log
          ≡ log)
        ⊎ ((cues : List Cue) × (done.0 ≡ ok cues) × ((commit a job done.1).0 ≡ ok true))
  after_prepare job log (err e, w) h = inl h
  after_prepare job log (ok cues, w) h =
      elim (after_answer job cues log (commit a job w) (Quiet-commit a job w ∙ h)) [
        | inl q ↦ inl (unfold ◌>>=◌ in q)
        | inr q ↦ inr (cues, refl, q)
      ]

  -- A run that changes what others see has gone through all the work before the commit, and its
  -- completion of the job was told that the job was active until then.
  pub run_job-committed :
      (job : Job p) (w : World p)
      → ((run_job a job w).1.log ≡ w.log)
        ⊎ ((cues : List Cue) × ((prepare a job w).0 ≡ ok cues)
            × ((commit a job (prepare a job w).1).0 ≡ ok true))
  unfolding run_job work ◌>>=◌
  run_job-committed job w = after_prepare job w.log (prepare a job w) (Quiet-prepare a job w)

  -- A job that has ended before its commit, canceled or deleted, publishes nothing: no file beside
  -- the video and no event.
  pub run_job-ended :
      (job : Job p) (w : World p)
      → Closed p job.id (found a (prepare a job w).1)
      → (run_job a job w).1.log ≡ w.log
  run_job-ended job w closed = elim (run_job-committed job w) [
    | inl q ↦ q
    | inr (cues, _, committed) ↦ absurd (commit-Closed job (prepare a job w).1 closed committed)
  ]
