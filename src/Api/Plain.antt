-- ===== src/Api/Plain.antt =====
-- The error answers of the handlers of backend/src/api.rs that do not read a job again.
use ryu_subtitles.Prelude.{
  ℕ, ◌≡◌, refl, ap, ltb, Bool, true, false, not, Option, none, some, List, [], ◌∷◌, length, arith,
  Bool-cases, inl, inr, retain,
}
use ryu_subtitles.Text.{Text, trim, is_empty}
use ryu_subtitles.Cues.Model.{Format, Layout}
use ryu_subtitles.Store.Model.{Platform, Row, Job, NewJob, Db, Settings}
use ryu_subtitles.Store.Jobs as Store
use ryu_subtitles.Api.Model.{
  Site, SettingsInput, CreateJobInput, DownloadQuery, reply, or_500, or_404, chosen_format,
  chosen_layout,
}
use ryu_subtitles.Api.Jobs
use ryu_subtitles.Api.Download
use ryu_subtitles.Api.Settings
use ryu_subtitles.Api.Early.{
  Spares, moved, fine, reply-Spares, error-Spares, done-Spares, bind-Spares, branch-Spares,
}

module _ (p : Platform) (s : Site p) (quiet : (k : ℕ) (db : Db p) → s.meddle k db ≡ db) where
  pub list_jobs-Spares : (db : Db p) → Spares p db (Jobs.list_jobs p s db)
  unfolding Jobs.list_jobs
  list_jobs-Spares db =
      moved p (quiet 0 db)
        (bind-Spares p (or_500 p s _) _ (λ jobs e. done-Spares p (reply-Spares p _ _)))

  pub get_job-Spares : (id : Text) (db : Db p) → Spares p db (Jobs.get_job p s id db)
  unfolding Jobs.get_job
  get_job-Spares id db =
      moved p (quiet 0 db)
        (bind-Spares p (or_404 p s _) _ (λ job e. done-Spares p (reply-Spares p _ _)))

  pub show_cues-Spares : (id : Text) (db : Db p) → Spares p db (Jobs.show_cues p s id db)
  unfolding Jobs.show_cues
  show_cues-Spares id db =
      bind-Spares p (or_500 p s _) _ (λ cues e. done-Spares p (reply-Spares p _ db))

  pub get_cues-Spares : (id : Text) (db : Db p) → Spares p db (Jobs.get_cues p s id db)
  unfolding Jobs.get_cues
  get_cues-Spares id db = moved p (quiet 0 db) (
      bind-Spares p (or_404 p s _) _
        (λ job e. done-Spares p (moved p (quiet 1 _) (show_cues-Spares id _))))

  pub deleted-Spares :
      (id : Text) (db : Db p) (found : Bool) (after : Db p)
      → (found ≡ false → after ≡ db)
      → Spares p db (Jobs.deleted p s id (found, after))
  unfolding Jobs.deleted
  deleted-Spares id db true after h = fine p db _ (omega arith)
  deleted-Spares id db false after h = moved p (h refl) (reply-Spares p _ after)

  -- Where the deletion finds no row, it keeps all of them.
  none_to_delete :
      (id : Text) (rows : List (Row p))
      → ltb 0 (length (retain (Store.has_id p id) rows)) ≡ false
      → retain (λ r. not (Store.has_id p id r)) rows ≡ rows
  unfolding retain
  none_to_delete id [] h = refl
  none_to_delete id (r ∷ rows) h = elim (Bool-cases (Store.has_id p id r)) [
    | inl e ↦ absurd (ground arith)
    | inr e ↦ ground (arith, none_to_delete id rows)
  ]

  pub delete_job-Spares : (id : Text) (db : Db p) → Spares p db (Jobs.delete_job p s id db)
  unfolding Jobs.delete_job Store.delete_job or_500
  delete_job-Spares id db =
      let db₀ = s.meddle 0 db in
      moved p (quiet 0 db) (
        done-Spares p (
          deleted-Spares id db₀ _ _
            (λ e. ap (λ rows. record db₀ { jobs = rows }) (none_to_delete id db₀.jobs e))))

  pub save_input-Spares :
      (settings : Settings) (db : Db p) → Spares p db (Settings.save_input p s settings db)
  unfolding Settings.save_input reply
  save_input-Spares settings db =
      bind-Spares p (or_500 p s _) _ (λ after e. done-Spares p (fine p db _ (omega arith)))

  pub put_settings-Spares :
      (input : SettingsInput) (db : Db p) → Spares p db (Settings.put_settings p s input db)
  unfolding Settings.put_settings
  put_settings-Spares input db = moved p (quiet 0 db) (
      bind-Spares p (Settings.apply_input p s input _) _
        (λ settings e. done-Spares p (moved p (quiet 1 _) (save_input-Spares settings _))))

  pub browse-Spares : (dir : Option Text) (db : Db p) → Spares p db (Settings.browse p s dir db)
  unfolding Settings.browse
  browse-Spares none db = reply-Spares p _ db
  browse-Spares (some dir) db = elim (Bool-cases (is_empty (trim dir))) [
    | inl e ↦ rw e (reply-Spares p _ db)
    | inr e ↦ rw e (reply-Spares p _ db)
  ]

  pub store_job-Spares :
      (id : Text) (new : NewJob) (db : Db p) → Spares p db (Jobs.store_job p s id new db)
  unfolding Jobs.store_job Jobs.created
  store_job-Spares id new db =
      bind-Spares p (or_500 p s _) _ (λ done e. done-Spares p (fine p db _ (omega arith)))

  pub queue_job-Spares :
      (id source : Text) (input : CreateJobInput) (db : Db p)
      → Spares p db (Jobs.queue_job p s id source input db)
  unfolding Jobs.queue_job
  queue_job-Spares id source input db =
      bind-Spares p (Jobs.new_job_of p s source input _) _
        (λ new e. done-Spares p (moved p (quiet 1 db) (store_job-Spares id new _)))

  pub create_job-Spares :
      (id : Text) (input : CreateJobInput) (db : Db p)
      → Spares p db (Jobs.create_job p s id input db)
  unfolding Jobs.create_job
  create_job-Spares id input db =
      bind-Spares p (Jobs.or_path_error p s _) _
        (λ source e. done-Spares p (moved p (quiet 0 db) (queue_job-Spares id source input _)))

  pub send_file-Spares :
      (id : Text) (job : Job p) (format : Format) (layout : Layout) (db : Db p)
      → Spares p db (Download.send_file p s id job format layout db)
  unfolding Download.send_file Download.file_response reply
  send_file-Spares id job format layout db = bind-Spares p (or_500 p s _) _ (λ cues e.
      branch-Spares p (is_empty cues) _ _ (λ t. error-Spares p db _)
        (λ t. done-Spares p (fine p db _ (omega arith))))

  pub download-Spares :
      (id : Text) (query : DownloadQuery) (db : Db p)
      → Spares p db (Download.download p s id query db)
  unfolding Download.download
  download-Spares id query db = moved p (quiet 0 db) (
      bind-Spares p (or_404 p s _) _ (λ job e.
        bind-Spares p (chosen_format p query.format job.format) _ (λ format e.
          bind-Spares p (chosen_layout p query.layout job.layout) _ (λ layout e.
            done-Spares p (moved p (quiet 1 _) (send_file-Spares id job format layout _))))))
