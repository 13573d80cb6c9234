-- ===== src/Api/Errors.antt =====
-- The error answers of the handlers of backend/src/api.rs.
use ryu_subtitles.Prelude.{
  ℕ, ◌≡◌, refl, sym, ap, subst, ◌≤◌, Bool, true, false, some, [], arith, ok, bind_passed,
  ok-injective,
}
use ryu_subtitles.Text.{Text, codes}
use ryu_subtitles.Store.Model.{Platform, Job, Db, is_terminal}
use ryu_subtitles.Store.Jobs as Store
use ryu_subtitles.Store.Jobs.Updates.{find_row-id}
use ryu_subtitles.Store.Jobs.Content.{Opens}
use ryu_subtitles.Store.Queue
use ryu_subtitles.Store.Queue.Readable.{row_to_job-IsReadable, get_job_found}
use ryu_subtitles.Store.Queue.Kept.{
  is_active-row_to_job, get_job-update, requeued-id, requeued-IsReadable, canceled-id,
  canceled-IsReadable,
}
use ryu_subtitles.Api.Model.{Response, Site, reply, or_500, or_404}
use ryu_subtitles.Api.Jobs
use ryu_subtitles.Api.Settings
use ryu_subtitles.Api.Routes
use ryu_subtitles.Api.Early.{
  Spares, moved, fine, reply-Spares, error-Spares, done-Spares, bind-Spares, branch-Spares,
  or_500_ok, or_404_ok, reread_found,
}
use ryu_subtitles.Api.Plain.{
  list_jobs-Spares, get_job-Spares, get_cues-Spares, delete_job-Spares, put_settings-Spares,
  browse-Spares, create_job-Spares, download-Spares,
}

module _ (p : Platform) (s : Site p) (quiet : (k : ℕ) (db : Db p) → s.meddle k db ≡ db) where
  requeued_success :
      (id : Text) (db : Db p) (j : Job p)
      → Queue.get_job p id db ≡ ok (some j)
      → (Jobs.requeued p s id db).response.status ≡ 200
  unfolding Jobs.requeued Jobs.show_job
  requeued_success id db j h =
      ap (λ (r : Response p). r.status)
        (reread_found p s id _ (s.meddle 2 db) j
          (subst (λ d. Queue.get_job p id d ≡ ok (some j)) (sym (quiet 2 db)) h))

  run_again-Spares :
      (id : Text) (db : Db p) (j : Job p)
      → Queue.get_job p id db ≡ ok (some j)
      → Spares p db (Jobs.run_again p s id db)
  unfolding Jobs.run_again Store.requeue Store.has_id
  run_again-Spares id db j h =
      let (r, here, reads) = get_job_found p id db j h in
      bind-Spares p (or_500 p s _) _ (λ done e.
        let (r', j', _, _, again) =
          get_job-update p (Store.has_id p id) (Store.write_requeued p id (s.now 1))
            (requeued-id p id (s.now 1)) (requeued-IsReadable p id (s.now 1)) id db r done here
            (row_to_job-IsReadable p r j reads) (find_row-id p id r db.jobs here)
            (or_500_ok p s _ done e) in
        done-Spares p (fine p db _ (omega (arith, requeued_success id done.1 j' again))))

  retry_job-Spares : (id : Text) (db : Db p) → Spares p db (Jobs.retry_job p s id db)
  unfolding Jobs.retry_job
  retry_job-Spares id db =
      let db₀ = s.meddle 0 db in
      moved p (quiet 0 db) (
        bind-Spares p (or_404 p s _) _ (λ job e.
          branch-Spares p (is_terminal job.status) _ _
            (λ t. done-Spares p (
              moved p (quiet 1 db₀) (
                run_again-Spares id (s.meddle 1 db₀) job (
                  subst (λ d. Queue.get_job p id d ≡ ok (some job)) (sym (quiet 1 db₀))
                    (or_404_ok p s _ job e)))))
            (λ t. error-Spares p db₀ _)))

  canceled_success :
      (id : Text) (db : Db p) (j : Job p)
      → Queue.get_job p id db ≡ ok (some j)
      → (Jobs.canceled p s id db).response.status ≡ 200
  unfolding Jobs.canceled Jobs.show_job reply
  canceled_success id db j h =
      ap (λ (r : Response p). r.status)
        (reread_found p s id _ (s.meddle 2 db) j
          (subst (λ d. Queue.get_job p id d ≡ ok (some j)) (sym (quiet 2 db)) h))

  module _ (law : Opens p) where
    -- What `cancel_if_active` says behind its flag.
    cancel_update :
        (id reason : Text) (now : ℕ) (db : Db p) (done : Bool × Db p)
        → Store.cancel_if_active p id reason now db ≡ ok done
        → (n : ℕ) × (Store.update p
              (Store.is_active_id p id)
              (Store.write_canceled p id reason now)
              db
            ≡ ok (n, done.1))
    unfolding Store.cancel_if_active Store.changed
    cancel_update id reason now db done h =
        let (d, e, f) =
          bind_passed
            (Store.update p (Store.is_active_id p id) (Store.write_canceled p id reason now) db) _
            h in
        let same : d.1 ≡ done.1 = ap (λ (o : Bool × Db p). o.1) (ok-injective _ done f) in
        (
          d.0,
          subst
              (λ x.
                Store.update p (Store.is_active_id p id) (Store.write_canceled p id reason now) db
                ≡ ok (d.0, x))
              same e,
        )

    stop_job-Spares :
        (id : Text) (db : Db p) (j : Job p)
        → Queue.get_job p id db ≡ ok (some j)
        → is_terminal j.status ≡ false
        → Spares p db (Jobs.stop_job p s id db)
    unfolding Jobs.stop_job
    stop_job-Spares id db j h active =
        let (r, here, reads) = get_job_found p id db j h in
        let hits : Store.is_active_id p id r ≡ true =
          unfold Store.is_active_id Store.has_id in
          rw (find_row-id p id r db.jobs here, is_active-row_to_job p r j reads, active) refl in
        bind-Spares p (or_500 p s _) _ (λ done e.
          let (n, run) =
            cancel_update id (codes "Cancelled.") (s.now 1) db done (or_500_ok p s _ done e) in
          let (r', j', _, _, again) =
            get_job-update p (Store.is_active_id p id)
              (Store.write_canceled p id (codes "Cancelled.") (s.now 1))
              (canceled-id p law id (codes "Cancelled.") (s.now 1))
              (canceled-IsReadable p law id (codes "Cancelled.") (s.now 1)) id db r (n, done.1) here
              (row_to_job-IsReadable p r j reads) hits run in
          done-Spares p (fine p db _ (omega (arith, canceled_success id done.1 j' again))))

    cancel_job-Spares : (id : Text) (db : Db p) → Spares p db (Jobs.cancel_job p s id db)
    unfolding Jobs.cancel_job
    cancel_job-Spares id db =
        let db₀ = s.meddle 0 db in
        moved p (quiet 0 db) (
          bind-Spares p (or_404 p s _) _ (λ job e.
            branch-Spares p (is_terminal job.status) _ _ (λ t. done-Spares p (reply-Spares p _ db₀))
              (λ t. done-Spares p (
                moved p (quiet 1 db₀) (
                  stop_job-Spares id (s.meddle 1 db₀) job
                    (subst (λ d. Queue.get_job p id d ≡ ok (some job)) (sym (quiet 1 db₀))
                      (or_404_ok p s _ job e))
                    t)))))

    handle-Spares : (r : Routes.Request) (db : Db p) → Spares p db (Routes.handle p s r db)
    unfolding Routes.handle
    handle-Spares Routes.list_languages db = unfold Settings.list_languages in reply-Spares p _ db
    handle-Spares Routes.list_roots db = unfold Settings.list_roots in reply-Spares p _ db
    handle-Spares Routes.get_settings db =
        unfold Settings.get_settings in moved p (quiet 0 db) (reply-Spares p _ (s.meddle 0 db))
    handle-Spares Routes.list_jobs db = list_jobs-Spares p s quiet db
    handle-Spares (Routes.browse dir) db = browse-Spares p s quiet dir db
    handle-Spares (Routes.put_settings input) db = put_settings-Spares p s quiet input db
    handle-Spares (Routes.create_job id input) db = create_job-Spares p s quiet id input db
    handle-Spares (Routes.get_job id) db = get_job-Spares p s quiet id db
    handle-Spares (Routes.delete_job id) db = delete_job-Spares p s quiet id db
    handle-Spares (Routes.get_cues id) db = get_cues-Spares p s quiet id db
    handle-Spares (Routes.retry_job id) db = retry_job-Spares id db
    handle-Spares (Routes.cancel_job id) db = cancel_job-Spares id db
    handle-Spares (Routes.download id query) db = download-Spares p s quiet id query db

    -- A request that is answered with an error status has changed nothing in the database and done
    -- nothing else, where no other task works on the database meanwhile and values open as they were
    -- sealed.
    pub handle-unchanged :
        (r : Routes.Request) (db : Db p)
        → 400 ≤ (Routes.handle p s r db).response.status
        → ((Routes.handle p s r db).db ≡ db) × ((Routes.handle p s r db).signals ≡ [])
    handle-unchanged r db h = (handle-Spares r db).nothing_done h
