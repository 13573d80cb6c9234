-- ===== src/Api/Retry.antt =====
-- `retry_job` of backend/src/api.rs where it answers 200.
use ryu_subtitles.Prelude.{
  ℕ, ◌≡◌, refl, sym, ap, subst, ◌∙◌, ◌≤◌, Bool, true, false, none, some, [], arith, ok, err, ◌>>=◌,
  bind_passed, ok-injective, if◌then◌else◌,
}
use ryu_subtitles.Text.{Text, codes, text_eq}
use ryu_subtitles.Text.Equal.{text_eq→eq}
use ryu_subtitles.Store.Model.{Platform, Row, Job, Db, queued, is_terminal, parse_status}
use ryu_subtitles.Store.Rows.{row_to_job, opened, opened_opt, seal_text}
use ryu_subtitles.Store.Jobs as Store
use ryu_subtitles.Store.Jobs.Updates.{update-Updates, find_row_hit, find_row-id}
use ryu_subtitles.Store.Jobs.Content.{Opens, opened_seal}
use ryu_subtitles.Store.Queue
use ryu_subtitles.Store.Queue.Readable.{get_job_found, get_row, read_cues, cues_found}
use ryu_subtitles.Store.Queue.Kept.{requeued-id}
use ryu_subtitles.Api.Model.{
  Response, Answer, Site, job_body, decorate, answered, reply, or_500, or_404, conflict,
  error_response,
}
use ryu_subtitles.Api.Jobs
use ryu_subtitles.Api.Early.{bind_holds, or_500_ok, or_404_ok, or_500_err, or_404_err, reread_found}

module _ (p : Platform) where
  -- The job as it is queued again.
  abbrev pub restarted : Job p → ℕ → Job p
  restarted j now = record j {
    status = queued;
    progress = p.real_zero;
    stage = codes "Queued";
    error = none;
    cue_count = 0;
    translated_count = 0;
    updated_at = now;
    completed_at = none;
  }

  requeued_job :
      (id : Text) (now : ℕ) (r r' : Row p) (j : Job p)
      → row_to_job p r ≡ ok j
      → Store.write_requeued p id now r ≡ ok r'
      → row_to_job p r' ≡ ok (restarted j now)
  unfolding Store.write_requeued row_to_job opened_opt parse_status text_eq
  requeued_job id now r r' j h c =
      let (path, e₁, h₁) =
        bind_passed (opened p (codes "jobs.source_path") r.id r.source_path) _ h in
      let (name, e₂, h₂) =
        bind_passed (opened p (codes "jobs.source_name") r.id r.source_name) _ h₁ in
      let (error, e₃, h₃) = bind_passed (opened_opt p (codes "jobs.error") r.id r.error) _ h₂ in
      let (output, e₄, h₄) =
        bind_passed (opened_opt p (codes "jobs.output_path") r.id r.output_path) _ h₃ in
      let (sealed, _, f) = bind_passed (seal_text p (codes "jobs.cues") id (codes "[]")) _ c in
      subst (λ x. row_to_job p x ≡ ok (restarted j now)) (ok-injective _ r' f)
        (rw (e₁, e₂, e₄) (ap (λ (k : Job p). ok (restarted k now)) (ok-injective _ j h₄)))

  -- What a retry that succeeds has done: the job had ended, and is queued again with no cues, no error
  -- and no progress, and otherwise as it was.
  pub record IsRestarted (s : Site p) (id : Text) (now : ℕ) (before : Db p) (a : Answer p)
      : Type 0 where
    pub job : Job p
    pub was : Queue.get_job p id before ≡ ok (some job)
    pub ended : is_terminal job.status ≡ true
    pub is : Queue.get_job p id a.db ≡ ok (some (restarted job now))
    pub cues : Queue.cues p id a.db ≡ ok []
    pub shown : a.response.body ≡ job_body (decorate p s.files (restarted job now))

  module _ (law : Opens p) (blank : p.cues_from_json (codes "[]") ≡ some []) where
    requeued_cues :
        (id : Text) (now : ℕ) (r r' : Row p)
        → r.id ≡ id
        → Store.write_requeued p id now r ≡ ok r'
        → read_cues p r'.id r'.cues ≡ ok []
    unfolding Store.write_requeued
    requeued_cues id now r r' same c =
        let (sealed, s, f) = bind_passed (seal_text p (codes "jobs.cues") id (codes "[]")) _ c in
        let opens = opened_seal p law (codes "jobs.cues") id (codes "[]") sealed s in
        subst (λ (x : Row p). read_cues p x.id x.cues ≡ ok []) (ok-injective _ r' f)
          (rw same (rw opens (rw blank refl)))

    module _ (s : Site p) (quiet : (k : ℕ) (db : Db p) → s.meddle k db ≡ db) where
      record Restarts (id : Text) (before : Db p) (a : Answer p) : Type 0 where
        restarts : a.response.status ≡ 200 → IsRestarted s id (s.now 1) before a

      requeued-IsRestarted :
          (id : Text) (db : Db p) (j : Job p) (out : ℕ × Db p)
          → Queue.get_job p id db ≡ ok (some j)
          → is_terminal j.status ≡ true
          → Store.requeue p id (s.now 1) db ≡ ok out
          → IsRestarted s id (s.now 1) db (Jobs.requeued p s id out.1)
      unfolding Jobs.requeued Store.requeue Store.has_id
      requeued-IsRestarted id db j out h ended run =
          let (r, here, reads) = get_job_found p id db j h in
          let same = find_row-id p id r db.jobs here in
          let change = Store.write_requeued p id (s.now 1) in
          let (r', c, there) =
            find_row_hit p (Store.has_id p id) change (requeued-id p id (s.now 1)) id r
              (update-Updates p (Store.has_id p id) change db out run) same here in
          let found = get_row p id out.1 r' _ there (requeued_job id (s.now 1) r r' j reads c) in
          let again =
            subst (λ d. Queue.get_job p id d ≡ ok (some (restarted j (s.now 1))))
              (sym (quiet 2 out.1)) found in
          record {
            job = j;
            was = h;
            ended = ended;
            is = again;
            cues =
                subst (λ d. Queue.cues p id d ≡ ok []) (sym (quiet 2 out.1))
                  (cues_found p id out.1 r' there
                    ∙ requeued_cues id (s.now 1) r r' (text_eq→eq r.id id same) c);
            shown =
                unfold Jobs.show_job in
                ap (λ (x : Response p). x.body)
                  (reread_found p s id _ (s.meddle 2 out.1) (restarted j (s.now 1)) again);
          }

      refused :
          (id : Text) (before db : Db p) (r : Response p)
          → 400 ≤ r.status
          → Restarts id before (reply p r db)
      unfolding reply
      refused id before db r h = record { restarts = λ q. absurd (omega arith) }

      run_again-Restarts :
          (id : Text) (db : Db p) (j : Job p)
          → Queue.get_job p id db ≡ ok (some j)
          → is_terminal j.status ≡ true
          → Restarts id db (Jobs.run_again p s id db)
      unfolding Jobs.run_again
      run_again-Restarts id db j h ended =
          bind_holds p (Restarts id db) db (or_500 p s (Store.requeue p id (s.now 1) db)) _
            (λ out e.
              unfold answered in
              record {
                restarts = λ q. requeued-IsRestarted id db j out h ended (or_500_ok p s _ out e);
              })
            (λ r e. refused id db db r (omega (arith, or_500_err p s _ r e)))

      ended-Restarts :
          (id : Text) (db : Db p) (j : Job p)
          → Queue.get_job p id db ≡ ok (some j)
          → (b : Bool) → is_terminal j.status ≡ b
          → Restarts id db (
              answered p db (
                if b
                then ok (Jobs.run_again p s id (s.meddle 1 db))
                else err (conflict p (codes "this job is still running"))))
      unfolding answered
      ended-Restarts id db j h true t =
          subst (λ d. Restarts id db (Jobs.run_again p s id d)) (sym (quiet 1 db))
            (run_again-Restarts id db j h t)
      ended-Restarts id db j h false t =
          unfold conflict error_response in record { restarts = λ q. absurd (omega arith) }

      found-Restarts :
          (id : Text) (db : Db p)
          → Restarts id db (
              answered p db (
                or_404 p s (Queue.get_job p id db) >>= λ job.
                if is_terminal job.status
                then ok (Jobs.run_again p s id (s.meddle 1 db))
                else err (conflict p (codes "this job is still running"))))
      found-Restarts id db =
          bind_holds p (Restarts id db) db (or_404 p s (Queue.get_job p id db)) _
            (λ j e. ended-Restarts id db j (or_404_ok p s _ j e) (is_terminal j.status) refl)
            (λ r e. refused id db db r (or_404_err p s _ r e))

      retry_job-Restarts : (id : Text) (db : Db p) → Restarts id db (Jobs.retry_job p s id db)
      unfolding Jobs.retry_job
      retry_job-Restarts id db =
          subst
            (λ d. Restarts id db (
              answered p d (
                or_404 p s (Queue.get_job p id d) >>= λ job.
                if is_terminal job.status
                then ok (Jobs.run_again p s id (s.meddle 1 d))
                else err (conflict p (codes "this job is still running")))))
            (sym (quiet 0 db)) (found-Restarts id db)

      -- A retry that is answered with 200 had a job that had ended, and has queued it again: its cues
      -- are empty, its error and its progress are gone, the rest is as it was, and the answer shows it
      -- so. No other task works on the database meanwhile, values open as they were sealed, and the
      -- JSON `[]` is the empty list.
      pub retry_job-IsRestarted :
          (id : Text) (db : Db p)
          → (Jobs.retry_job p s id db).response.status ≡ 200
          → IsRestarted s id (s.now 1) db (Jobs.retry_job p s id db)
      retry_job-IsRestarted id db h = (retry_job-Restarts id db).restarts h
