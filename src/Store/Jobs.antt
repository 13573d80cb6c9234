-- ===== src/Store/Jobs.antt =====
-- The methods of `SubtitleStore` that write. A method takes the time of its clock call.
pub mod Updates
pub mod Guarded
pub mod Frozen
pub mod Closed
pub mod Outcome
pub mod Content
pub mod Restart
use ryu_subtitles.Prelude.{
  ℕ, zero, suc, Bool, true, false, not, ◌&&◌, ◌||◌, ◌≡◌, Option, none, some, List, [], ◌∷◌, ◌++◌,
  length, retain, if◌then◌else◌, Result, ok, err, ◌>>=◌, ok_or, ltb,
}
use ryu_subtitles.Text.{Text, codes, text_eq, contains_text}
use ryu_subtitles.Cues.Model.{Cue, Format, Layout, extension}
use ryu_subtitles.Store.Model.{
  Platform, Row, Job, NewJob, Db, Settings, StoreError, unsealable, not_json, duplicate_id, Status,
  as_str, queued, is_terminal, layout_str,
}
use ryu_subtitles.Store.Rows.{update_rows, find_row, is_active, seal_opt, seal_text}

-- `COALESCE`.
abbrev pub coalesce {ℓ} : {A : Type ℓ} → Option A → Option A → Option A
coalesce (some a) b = some a
coalesce none b = b

abbrev pub is_some {ℓ} : {A : Type ℓ} → Option A → Bool
is_some (some a) = true
is_some none = false

module _ (p : Platform) where
  -- A statement that writes, with its result.
  abbrev pub Write : Type 0 → Type 0
  Write A = Db p → Result StoreError (A × Db p)

  unfoldable pub update : (Row p → Bool) → (Row p → Result StoreError (Row p)) → Write ℕ
  update test change db = do
    done ← update_rows p test change db.jobs
    ok (done.0, record db { jobs = done.1 })

  -- `execute(…)? > 0`.
  unfoldable pub changed : (Row p → Bool) → (Row p → Result StoreError (Row p)) → Write Bool
  changed test change db = do done ← update test change db; ok (ltb 0 done.0, done.1)

  unfoldable pub has_id : Text → Row p → Bool
  has_id id r = text_eq r.id id

  -- `id = ?1 AND status NOT IN (…)`.
  unfoldable pub is_active_id : Text → Row p → Bool
  is_active_id id r = has_id id r && is_active p r

  -- `status.is_terminal().then(now_ms)`; `updated_at` has a clock call of its own.
  abbrev pub stamp : Status → ℕ → Option ℕ
  stamp status now = if is_terminal status then some now else none

  unfoldable pub write_status :
      Text → Status → Option Text → ℕ → ℕ → Row p → Result StoreError (Row p)
  write_status id status error ended now r = do
    sealed ← seal_opt p (codes "jobs.error") id error
    ok (record r {
      status = as_str status;
      error = sealed;
      updated_at = now;
      completed_at = coalesce r.completed_at (stamp status ended);
    })

  unfoldable pub set_status : Text → Status → Option Text → ℕ → ℕ → Write ℕ
  set_status id status error ended now = update (has_id id) (write_status id status error ended now)

  unfoldable pub set_status_if_active : Text → Status → Option Text → ℕ → ℕ → Write Bool
  set_status_if_active id status error ended now =
      changed (is_active_id id) (write_status id status error ended now)

  unfoldable pub write_canceled : Text → Text → ℕ → Row p → Result StoreError (Row p)
  write_canceled id reason now r = do
    sealed ← seal_text p (codes "jobs.error") id reason
    ok (record r {
      status = codes "canceled";
      error = some sealed;
      updated_at = now;
      completed_at = coalesce r.completed_at (some now);
    })

  unfoldable pub cancel_if_active : Text → Text → ℕ → Write Bool
  cancel_if_active id reason now = changed (is_active_id id) (write_canceled id reason now)

  unfoldable pub write_completed : ℕ → Row p → Result StoreError (Row p)
  write_completed now r = ok (record r {
    status = codes "completed";
    progress = p.real_one;
    stage = codes "Done";
    error = none;
    updated_at = now;
    completed_at = coalesce r.completed_at (some now);
  })

  unfoldable pub complete_if_active : Text → ℕ → Write Bool
  complete_if_active id now = changed (is_active_id id) (write_completed now)

  unfoldable pub write_progress : p.Real → Text → Option ℕ → ℕ → Row p → Result StoreError (Row p)
  write_progress progress stage duration_ms now r = ok (record r {
    progress = p.clamp progress p.real_zero p.real_one;
    stage = stage;
    duration_ms = coalesce duration_ms r.duration_ms;
    updated_at = now;
  })

  unfoldable pub set_progress : Text → p.Real → Text → Option ℕ → ℕ → Write ℕ
  set_progress id progress stage duration_ms now =
      update (is_active_id id) (write_progress progress stage duration_ms now)

  unfoldable pub is_translated : Cue → Bool
  is_translated c = is_some c.translated

  unfoldable pub write_cues : Text → Text → List Cue → ℕ → Row p → Result StoreError (Row p)
  write_cues id json cues now r = do
    sealed ← seal_text p (codes "jobs.cues") id json
    ok (record r {
      cues = sealed;
      cue_count = length cues;
      translated_count = length (retain is_translated cues);
      updated_at = now;
    })

  unfoldable pub set_cues : Text → List Cue → ℕ → Write ℕ
  set_cues id cues now db = do
    json ← ok_or (p.cues_to_json cues) not_json
    update (is_active_id id) (write_cues id json cues now) db

  unfoldable pub write_output_path : Text → Option Text → ℕ → Row p → Result StoreError (Row p)
  write_output_path id path now r = do
    sealed ← seal_opt p (codes "jobs.output_path") id path
    ok (record r { output_path = sealed; updated_at = now })

  unfoldable pub set_output_path : Text → Option Text → ℕ → Write ℕ
  set_output_path id path now = update (has_id id) (write_output_path id path now)

  unfoldable pub write_render_options : Format → Layout → ℕ → Row p → Result StoreError (Row p)
  write_render_options format layout now r =
      ok (record r { format = extension format; layout = layout_str layout; updated_at = now })

  unfoldable pub set_render_options : Text → Format → Layout → ℕ → Write ℕ
  set_render_options id format layout now =
      update (has_id id) (write_render_options format layout now)

  unfoldable pub write_requeued : Text → ℕ → Row p → Result StoreError (Row p)
  write_requeued id now r = do
    sealed ← seal_text p (codes "jobs.cues") id (codes "[]")
    ok (record r {
      status = codes "queued";
      progress = p.real_zero;
      stage = codes "Queued";
      error = none;
      cues = sealed;
      cue_count = 0;
      translated_count = 0;
      completed_at = none;
      updated_at = now;
    })

  unfoldable pub requeue : Text → ℕ → Write ℕ
  requeue id now = update (has_id id) (write_requeued id now)

  unfoldable pub delete_job : Text → Write Bool
  delete_job id db = ok (
    ltb 0 (length (retain (has_id id) db.jobs)),
    record db { jobs = retain (λ r. not (has_id id r)) db.jobs },
  )

  -- `status IN ('transcribing', 'translating')`.
  unfoldable pub is_running : Row p → Bool
  is_running r = contains_text r.status (codes "transcribing" ∷ codes "translating" ∷ [])

  unfoldable pub write_interrupted : Option Text → ℕ → Row p → Result StoreError (Row p)
  write_interrupted error now r = do
    sealed ← seal_opt p (codes "jobs.error") r.id error
    ok (record r {
      status = codes "canceled";
      stage = codes "Interrupted by a restart";
      error = sealed;
      updated_at = now;
    })

  unfoldable pub reset_interrupted : ℕ → Write ℕ
  reset_interrupted now =
      let error =
        if p.writable
        then some (codes "The node restarted while this job was running.")
        else none in
      update is_running (write_interrupted error now)

  -- The row that `create_job` inserts, for the id that it drew.
  unfoldable pub new_row : Text → NewJob → ℕ → Result StoreError (Row p)
  new_row id new now = do
    path ← seal_text p (codes "jobs.source_path") id new.source_path
    name ← seal_text p (codes "jobs.source_name") id new.source_name
    cues ← seal_text p (codes "jobs.cues") id (codes "[]")
    ok (record {
      id = id;
      source_path = path;
      source_name = name;
      target_language = new.target_language;
      format = extension new.format;
      layout = layout_str new.layout;
      status = as_str queued;
      progress = p.real_zero;
      stage = codes "Queued";
      error = none;
      duration_ms = none;
      cue_count = 0;
      translated_count = 0;
      engine = new.engine;
      model = new.model;
      output_path = none;
      cues = cues;
      created_at = now;
      updated_at = now;
      completed_at = none;
    })

  unfoldable pub new_job : Text → NewJob → ℕ → Job p
  new_job id new now = record {
    id = id;
    source_path = new.source_path;
    source_name = new.source_name;
    target_language = new.target_language;
    format = new.format;
    layout = new.layout;
    status = queued;
    progress = p.real_zero;
    stage = codes "Queued";
    error = none;
    duration_ms = none;
    cue_count = 0;
    translated_count = 0;
    engine = new.engine;
    model = new.model;
    output_path = none;
    created_at = now;
    updated_at = now;
    completed_at = none;
  }

  -- The primary key refuses a second row of one id.
  unfoldable pub create_job : Text → NewJob → ℕ → Write (Job p)
  create_job id new now db = do
    row ← new_row id new now
    if is_some (find_row p id db.jobs)
        then err duplicate_id
        else ok (new_job id new now, record db { jobs = db.jobs ++ row ∷ [] })

  unfoldable pub save_settings : Settings → Db p → Result StoreError (Db p)
  save_settings settings db = do
    blob ← ok_or (p.settings_to_json settings) not_json
    ok (record db { settings = some blob })
