-- ===== src/Engine/Worker.antt =====
-- The task of `spawn` of backend/src/engine.rs: the restart, then a round for each look at the queue.
-- The waits between the rounds are left out.
pub mod ReadOnly
use ryu_subtitles.Prelude.{
  ℕ, zero, suc, ◌≡◌, refl, ◌∙◌, Bool, false, Option, none, some, Result, ok, err, if◌then◌else◌,
}
use ryu_subtitles.Text.{Text}
use ryu_subtitles.Store.Model.{Platform, Job, Db, StoreError, failed}
use ryu_subtitles.Store.Jobs.{reset_interrupted, set_status_if_active}
use ryu_subtitles.Store.Jobs.Closed.{Closed}
use ryu_subtitles.Store.Jobs.Outcome.{changed-answer}
use ryu_subtitles.Store.Queue.{next_queued}
use ryu_subtitles.Engine.Model.{
  World, Around, Stop, found, settle_access, write, read, emit, failed_event,
}
use ryu_subtitles.Engine.Quiet.{Quiet-write}
use ryu_subtitles.Engine.Run.{told, settle_run, run_and_settle}

module _ {p : Platform} (a : Around p) where
  unfoldable pub boot : World p → World p
  boot w = (write a (reset_interrupted p) w).1

  abbrev pub serve : Result StoreError (Option (Job p)) → World p → World p
  serve (ok (some job)) w = run_and_settle a job w
  serve (ok none) w = w
  serve (err e) w = w

  abbrev pub answer_of :
      Result Stop (Result StoreError (Option (Job p))) → Result StoreError (Option (Job p))
  answer_of (ok r) = r
  answer_of (err e) = ok none

  unfoldable pub round : World p → World p
  round w = let queue = read a (next_queued p) w in serve (answer_of queue.0) queue.1

  -- The loop, for a number of rounds.
  unfoldable pub rounds : ℕ → World p → World p
  rounds zero w = w
  rounds (suc n) w = rounds n (round w)

  unfoldable pub run_worker : ℕ → World p → World p
  run_worker n w = rounds n (boot w)

  unmarked :
      (job : Job p) (e : Text) (w : World p)
      → Closed p job.id (found a w)
      → (r : Result StoreError (Bool × Db p))
      → set_status_if_active p job.id failed
          (some e)
          (a.now w.time)
          (a.later (a.now w.time))
          (found a w)
        ≡ r
      → (if told a (settle_access a w r).0
          then (emit (failed_event job.id e) (settle_access a w r).1).1
          else (settle_access a w r).1).log
        ≡ w.log
  unfolding set_status_if_active
  unmarked job e w closed (ok (b, db)) eq =
      rw (changed-answer p job.id _ (found a w) (b, db) closed eq) refl
  unmarked job e w closed (err x) eq = refl

  -- A run that fails when its job has ended, canceled or deleted, sends no event.
  pub settle_run-ended :
      (job : Job p) (result : Result Text Unit) (w : World p)
      → Closed p job.id (found a w)
      → (settle_run a job result w).log ≡ w.log
  unfolding settle_run write
  settle_run-ended job (ok t) w closed = refl
  settle_run-ended job (err e) w closed = unmarked job e w closed _ refl
