-- ===== src/Api/Jobs.antt =====
-- The handlers of backend/src/api.rs on jobs. `id` is the one that `create_job` of the store draws.
use ryu_subtitles.Prelude.{
  Bool, true, false, Option, none, some, List, [], ◌∷◌, ◌++◌, map, Result, ok, err, ◌>>=◌,
  if◌then◌else◌,
}
use ryu_subtitles.Text.{Text, codes, trim, is_empty}
use ryu_subtitles.Library.{PathError, or_else, lossy, validate_source}
use ryu_subtitles.Store.Model.{Platform, Job, NewJob, Db, Settings, is_terminal}
use ryu_subtitles.Store.Jobs as Store
use ryu_subtitles.Store.Queue
use ryu_subtitles.Api.Model.{
  Response, Answer, Site, Signal, wake, queued_event, remove_file, CreateJobInput, job_body,
  jobs_body, cues_body, no_body, success, conflict, not_found, path_error, decorate, chosen_format,
  chosen_layout, chosen_language, answered, either, reply, or_500, or_404, or_vanished, list_limit,
}

-- `map(trim).filter(not empty).unwrap_or_else(…)`.
unfoldable pub given_or : Option Text → Text → Text
given_or none kept = kept
given_or (some t) kept = if is_empty (trim t) then kept else trim t

module _ (p : Platform) (s : Site p) where
  unfoldable pub or_path_error : {A : Type 0} → Result PathError A → Result (Response p) A
  or_path_error (ok a) = ok a
  or_path_error (err e) = err (path_error p e)

  unfoldable pub new_job_of : Text → CreateJobInput → Settings → Result (Response p) NewJob
  new_job_of source input settings = do
    language ← chosen_language p (or_else input.target_language settings.target_language)
    format ← chosen_format p input.format settings.format
    layout ← chosen_layout p input.layout settings.layout
    ok (record {
      source_path = s.files.to_string_lossy source;
      source_name = or_else (lossy s.files (s.file_name source)) (codes "video");
      target_language = language.code;
      format = format;
      layout = layout;
      engine = given_or input.engine settings.engine;
      model = given_or input.model settings.model;
    })

  unfoldable pub created : Job p × Db p → Answer p
  created (job, db) = record {
    response = record { status = 201; body = job_body (decorate p s.files job) };
    db = db;
    signals = wake ∷ queued_event job.id job.source_name job.target_language ∷ [];
  }

  unfoldable pub store_job : Text → NewJob → Db p → Answer p
  store_job id new db =
      answered p db
        (do done ← or_500 p s (Store.create_job p id new (s.now 1) db); ok (created done))

  unfoldable pub queue_job : Text → Text → CreateJobInput → Db p → Answer p
  queue_job id source input db = answered p db (do
    new ← new_job_of source input (Queue.settings p db)
    ok (store_job id new (s.meddle 1 db)))

  unfoldable pub create_job : Text → CreateJobInput → Db p → Answer p
  create_job id input db = answered p db (do
    source ← or_path_error (validate_source s.files input.source_path)
    ok (queue_job id source input (s.meddle 0 db)))

  unfoldable pub show_job : Job p → Response p
  show_job job = success p (job_body (decorate p s.files job))

  unfoldable pub list_jobs : Db p → Answer p
  list_jobs db =
      let db₀ = s.meddle 0 db in
      answered p db₀ (do
        jobs ← or_500 p s (Queue.list_jobs p list_limit db₀)
        ok (reply p (success p (jobs_body (map (decorate p s.files) jobs))) db₀))

  unfoldable pub get_job : Text → Db p → Answer p
  get_job id db =
      let db₀ = s.meddle 0 db in
      answered p db₀ (do job ← or_404 p s (Queue.get_job p id db₀); ok (reply p (show_job job) db₀))

  -- The cues of a job that is there.
  unfoldable pub show_cues : Text → Db p → Answer p
  show_cues id db =
      answered p db
        (do cues ← or_500 p s (Queue.cues p id db); ok (reply p (success p (cues_body cues)) db))

  unfoldable pub get_cues : Text → Db p → Answer p
  get_cues id db =
      let db₀ = s.meddle 0 db in
      answered p db₀
        (do _ ← or_404 p s (Queue.get_job p id db₀); ok (show_cues id (s.meddle 1 db₀)))

  -- `engine::data_output_path` and `engine::remove_data_output`.
  unfoldable pub data_output_path : Text → Text → Text
  data_output_path id extension =
      s.files.join_path (s.files.join_path s.data_dir (codes "outputs"))
        (id ++ codes "." ++ extension)

  unfoldable pub remove_data_output : Text → List Signal
  remove_data_output id =
      remove_file (data_output_path id (codes "srt"))
      ∷ remove_file (data_output_path id (codes "vtt"))
      ∷ []

  -- The job as it is read again.
  unfoldable pub reread : Text → Text → Db p → Response p
  reread id what db =
      either p (do job ← or_vanished p s what (Queue.get_job p id db); ok (show_job job))

  unfoldable pub requeued : Text → Db p → Answer p
  requeued id db =
      let db₂ = s.meddle 2 db in
      record {
        response = reread id (codes "the job vanished while being re-queued") db₂;
        db = db₂;
        signals = remove_data_output id ++ wake ∷ [];
      }

  unfoldable pub run_again : Text → Db p → Answer p
  run_again id db =
      answered p db
        (do done ← or_500 p s (Store.requeue p id (s.now 1) db); ok (requeued id done.1))

  unfoldable pub retry_job : Text → Db p → Answer p
  retry_job id db =
      let db₀ = s.meddle 0 db in
      answered p db₀ (do
        job ← or_404 p s (Queue.get_job p id db₀)
        if is_terminal job.status
            then ok (run_again id (s.meddle 1 db₀))
            else err (conflict p (codes "this job is still running")))

  unfoldable pub canceled : Text → Db p → Answer p
  canceled id db =
      let db₂ = s.meddle 2 db in
      reply p (reread id (codes "the job vanished while being cancelled") db₂) db₂

  unfoldable pub stop_job : Text → Db p → Answer p
  stop_job id db = answered p db (do
    done ← or_500 p s (Store.cancel_if_active p id (codes "Cancelled.") (s.now 1) db)
    ok (canceled id done.1))

  unfoldable pub cancel_job : Text → Db p → Answer p
  cancel_job id db =
      let db₀ = s.meddle 0 db in
      answered p db₀ (do
        job ← or_404 p s (Queue.get_job p id db₀)
        if is_terminal job.status
            then ok (reply p (show_job job) db₀)
            else ok (stop_job id (s.meddle 1 db₀)))

  -- What the store answers to a deletion.
  unfoldable pub deleted : Text → Bool × Db p → Answer p
  deleted id (true, db) = record {
    response = record { status = 204; body = no_body };
    db = db;
    signals = remove_data_output id;
  }
  deleted id (false, db) = reply p (not_found p (codes "no such job")) db

  unfoldable pub delete_job : Text → Db p → Answer p
  delete_job id db =
      let db₀ = s.meddle 0 db in
      answered p db₀ (do done ← or_500 p s (Store.delete_job p id db₀); ok (deleted id done))
