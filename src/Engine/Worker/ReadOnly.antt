-- ===== src/Engine/Worker/ReadOnly.antt =====
-- The worker of backend/src/engine.rs on a store that refuses writes.
use ryu_subtitles.Prelude.{ap, ◌∙◌, true, ℕ, zero, suc, ◌≡◌, refl, ◌∙◌, false, some, ok}
use ryu_subtitles.Text.{Text, codes, text_eq, contains_text}
use ryu_subtitles.Text.Equal.{text_eq→eq}
use ryu_subtitles.Store.Model.{Platform, Db}
use ryu_subtitles.Store.Jobs.{reset_interrupted, set_status_if_active}
use ryu_subtitles.Store.Queue.{next_queued}
use ryu_subtitles.Engine.Model.{World, Around, found, settle_access, write, read}
use ryu_subtitles.Prelude.{All, ap}
use ryu_subtitles.Store.Model.{Row}
use ryu_subtitles.Store.Rows.{find_row}
use ryu_subtitles.Store.Jobs
use ryu_subtitles.Store.Jobs.Guarded.{interrupted-IsGuarded}
use ryu_subtitles.Store.Jobs.Restart.{reset_interrupted-total}
use ryu_subtitles.Store.Jobs.Updates.{update-Updates, find_row_miss}
use ryu_subtitles.Store.Queue.{is_queued}
use ryu_subtitles.Engine.Worker.{boot, round, rounds, run_worker}

module _ {p : Platform} (a : Around p) where
  -- What the other tasks alone make of a database, at the given time, in a number of accesses.
  unfoldable pub others : ℕ → ℕ → Db p → Db p
  others zero time db = db
  others (suc n) time db = others n (suc time) (a.meddle time db)

  idle_round :
      (w : World p)
      → p.writable ≡ false
      → round a w ≡ record { db = found a w; time = suc w.time; log = w.log }
  unfolding round read next_queued
  idle_round w closed = rw closed refl

  idle_rounds :
      (n : ℕ) (w : World p)
      → p.writable ≡ false
      → ((rounds a n w).db ≡ others n w.time w.db) × ((rounds a n w).log ≡ w.log)
  unfolding rounds others
  idle_rounds zero w closed = (refl, refl)
  idle_rounds (suc n) w closed =
      let (db, log) = idle_rounds n (round a w) closed in
      let idle = idle_round w closed in
      (db ∙ ap (λ (v : World p). others n v.time v.db) idle, log ∙ ap (λ (v : World p). v.log) idle)

  queued_not_running : (r : Row p) → is_queued p r ≡ true → Jobs.is_running p r ≡ false
  unfolding is_queued Jobs.is_running contains_text
  queued_not_running r h = rw (text_eq→eq r.status (codes "queued") h) (unfold text_eq in refl)

  queued_kept :
      (id : Text) (r : Row p) (now : ℕ) (db : Db p) (out : ℕ × Db p)
      → Jobs.reset_interrupted p now db ≡ ok out
      → is_queued p r ≡ true
      → find_row p id db.jobs ≡ some r
      → find_row p id out.1.jobs ≡ some r
  unfolding Jobs.reset_interrupted
  queued_kept id r now db out h q here =
      find_row_miss p (Jobs.is_running p) _ (interrupted-IsGuarded p _ now).keeps id r
        (update-Updates p (Jobs.is_running p) _ db out h) (queued_not_running r q) here

  booted :
      (w : World p) (out : ℕ × Db p)
      → Jobs.reset_interrupted p (a.now w.time) (found a w) ≡ ok out
      → boot a w ≡ record { db = out.1; time = suc w.time; log = w.log }
  unfolding boot write
  booted w out h = ap (λ r. (settle_access a w r).1) h

  -- On a store that refuses writes the worker takes no job up. Its start leaves no job running and
  -- keeps the row of a job that is queued; however many rounds follow, the database is then what the
  -- other tasks make of it, and nothing is published.
  pub run_worker-read_only :
      (n : ℕ) (w : World p) (id : Text) (r : Row p)
      → p.writable ≡ false
      → find_row p id (found a w).jobs ≡ some r
      → is_queued p r ≡ true
      → (started : Db p) × All (λ q. Jobs.is_running p q ≡ false) started.jobs
        × (find_row p id started.jobs ≡ some r)
        × ((run_worker a n w).db ≡ others n (suc w.time) started)
        × ((run_worker a n w).log ≡ w.log)
  unfolding run_worker
  run_worker-read_only n w id r closed here q =
      let (out, run, still) = reset_interrupted-total p (a.now w.time) (found a w) closed in
      let (db, log) = idle_rounds n (boot a w) closed in
      let start = booted w out run in
      (
        out.1,
        still,
        queued_kept id r (a.now w.time) (found a w) out run q here,
        db ∙ ap (λ (v : World p). others n v.time v.db) start,
        log ∙ ap (λ (v : World p). v.log) start,
      )
