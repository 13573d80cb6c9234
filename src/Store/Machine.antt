-- ===== src/Store/Machine.antt =====
-- The life of a job, as backend/src/store.rs lets it pass: an abstract machine on the status of one id,
-- and the calls of the program that write. `set_status` is not one: only the tests call it.
pub mod Found
pub mod Moves
pub mod Calls
pub mod Refines
pub mod Unique
use ryu_subtitles.Prelude.{
  ℕ, ◌≡◌, Bool, true, false, not, ◌&&◌, if◌then◌else◌, Option, none, some, List, [], ◌∷◌, Result,
  ok, err,
}
use ryu_subtitles.Text.{Text, text_eq}
use ryu_subtitles.Cues.Model.{Format, Layout}
use ryu_subtitles.Store.Model.{
  Platform, Row, Db, NewJob, Settings, StoreError, Status, queued, transcribing, translating,
  completed, canceled, parse_status, is_terminal,
}
use ryu_subtitles.Store.Rows.{find_row}
use ryu_subtitles.Store.Jobs
use ryu_subtitles.Store.Jobs.Guarded.{Guarded, call}

-- The statuses that a restart of the node interrupts.
unfoldable pub is_running_status : Status → Bool
is_running_status transcribing = true
is_running_status translating = true
is_running_status _ = false

module _ (p : Platform) where
  abbrev pub row_status : Option (Row p) → Option Status
  row_status none = none
  row_status (some r) = some (parse_status r.status)

  -- What the machine sees of a database.
  abbrev pub status_of : Text → Db p → Option Status
  status_of id db = row_status (find_row p id db.jobs)

  pub data Command : Type 0 where
    guarded : Guarded p → Command
    set_output_path : Text → Option Text → ℕ → Command
    set_render_options : Text → Format → Layout → ℕ → Command
    requeue_job : Text → ℕ → Command
    delete_job : Text → Command
    create_job : Text → NewJob → ℕ → Command
    save_settings : Settings → Command

  -- The database behind a call: a statement that fails is undone.
  abbrev pub behind : {A : Type 0} → Db p → Result StoreError (A × Db p) → Db p
  behind db (ok out) = out.1
  behind db (err e) = db

  abbrev pub saved : Db p → Result StoreError (Db p) → Db p
  saved db (ok out) = out
  saved db (err e) = db

  unfoldable pub exec : Command → Db p → Db p
  exec (guarded c) db = behind db (call p c db)
  exec (set_output_path id path now) db = behind db (Jobs.set_output_path p id path now db)
  exec (set_render_options id format layout now) db =
      behind db (Jobs.set_render_options p id format layout now db)
  exec (requeue_job id now) db = behind db (Jobs.requeue p id now db)
  exec (delete_job id) db = behind db (Jobs.delete_job p id db)
  exec (create_job id new now) db = behind db (Jobs.create_job p id new now db)
  exec (save_settings settings) db = saved db (Jobs.save_settings p settings db)

  unfoldable pub exec_all : List Command → Db p → Db p
  exec_all [] db = db
  exec_all (c ∷ cs) db = exec_all cs (exec c db)

  abbrev pub passed : {A : Type 0} → Result StoreError A → Bool
  passed (ok out) = true
  passed (err e) = false

  unfoldable pub is_done : Command → Db p → Bool
  is_done (guarded c) db = passed (call p c db)
  is_done (set_output_path id path now) db = passed (Jobs.set_output_path p id path now db)
  is_done (set_render_options id format layout now) db =
      passed (Jobs.set_render_options p id format layout now db)
  is_done (requeue_job id now) db = passed (Jobs.requeue p id now db)
  is_done (delete_job id) db = passed (Jobs.delete_job p id db)
  is_done (create_job id new now) db = passed (Jobs.create_job p id new now db)
  is_done (save_settings settings) db = passed (Jobs.save_settings p settings db)

  -- The calls of a sequence that do not fail where they stand.
  unfoldable pub served : List Command → Db p → List Command
  served [] db = []
  served (c ∷ cs) db = let rest = served cs (exec c db) in if is_done c db then c ∷ rest else rest

  -- The machine: what a call makes of the status of the job `id`. It knows no rows.
  unfoldable pub move_active : Guarded p → Text → Status → Status
  move_active (Guarded.status other s error ended now) id a =
      if text_eq id other && not (is_terminal a) then s else a
  move_active (Guarded.cancel other reason now) id a =
      if text_eq id other && not (is_terminal a) then canceled else a
  move_active (Guarded.complete other now) id a =
      if text_eq id other && not (is_terminal a) then completed else a
  move_active (Guarded.progress other value stage duration_ms now) id a = a
  move_active (Guarded.cue_list other cues now) id a = a
  move_active (Guarded.restart now) id a = if is_running_status a then canceled else a

  abbrev pub each : (Status → Status) → Option Status → Option Status
  each f none = none
  each f (some a) = some (f a)

  abbrev pub born : Bool → Option Status → Option Status
  born true none = some queued
  born false none = none
  born b (some a) = some a

  unfoldable pub move : Command → Text → Option Status → Option Status
  move (guarded c) id s = each (move_active c id) s
  move (requeue_job other now) id s = each (λ a. if text_eq id other then queued else a) s
  move (delete_job other) id s = if text_eq id other then none else s
  move (create_job other new now) id s = born (text_eq id other) s
  move _ id s = s

  unfoldable pub moves : List Command → Text → Option Status → Option Status
  moves [] id s = s
  moves (c ∷ cs) id s = moves cs id (move c id s)
