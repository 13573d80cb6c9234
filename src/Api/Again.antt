-- ===== src/Api/Again.antt =====
-- Two downloads of one job, by `download` of backend/src/api.rs.
use ryu_subtitles.Prelude.{
  ℕ, ◌≡◌, refl, sym, ap, subst, ◌∙◌, ◌≤◌, Bool, true, false, none, some, List, arith, ok, err,
  ◌>>=◌, if◌then◌else◌,
}
use ryu_subtitles.Text.{Text, codes, is_empty}
use ryu_subtitles.Cues.Model.{Cue, Format, Layout}
use ryu_subtitles.Store.Model.{Platform, Job, Db}
use ryu_subtitles.Store.Queue
use ryu_subtitles.Api.Model.{
  Response, Answer, Site, DownloadQuery, answered, reply, or_500, or_404, chosen_format,
  chosen_layout, conflict, error_response,
}
use ryu_subtitles.Api.Download
use ryu_subtitles.Api.Early.{bind_holds, or_500_ok, or_404_ok, or_500_err, or_404_err}
use ryu_subtitles.Api.Created.{chosen_format_400, chosen_layout_400}
use ryu_subtitles.Api.Remember.{remember-Remembers}

abbrev pub no_query : DownloadQuery
no_query = record { format = none; layout = none }

module _ (p : Platform) (s : Site p) (quiet : (k : ℕ) (db : Db p) → s.meddle k db ≡ db) where
  -- A response is what a download without a query answers.
  abbrev Answers : Text → Db p → Response p → Type 0
  Answers id db r = (Download.download p s id no_query db).response ≡ r

  send_file-answer :
      (id : Text) (job : Job p) (cues : List Cue) (format : Format) (layout : Layout) (db : Db p)
      → Queue.cues p id db ≡ ok cues
      → is_empty cues ≡ false
      → (Download.send_file p s id job format layout db).response
        ≡ Download.file_response p s job cues format layout
  unfolding Download.send_file or_500 answered reply
  send_file-answer id job cues format layout db e full = rw e (rw full refl)

  download-answer :
      (id : Text) (job : Job p) (cues : List Cue) (db : Db p)
      → Queue.get_job p id db ≡ ok (some job)
      → Queue.cues p id db ≡ ok cues
      → is_empty cues ≡ false
      → Answers id db (Download.file_response p s job cues job.format job.layout)
  unfolding Download.download or_404 answered chosen_format chosen_layout
  download-answer id job cues db h e full =
      rw (quiet 0 db)
        (rw h (rw (quiet 1 db) (send_file-answer id job cues job.format job.layout db e full)))

  file_response-same :
      (job stored : Job p) (cues : List Cue) (format : Format) (layout : Layout)
      → stored.source_name ≡ job.source_name
      → stored.target_language ≡ job.target_language
      → Download.file_response p s stored cues format layout
        ≡ Download.file_response p s job cues format layout
  unfolding Download.file_response Download.download_filename
  file_response-same job stored cues format layout name language = rw (name, language) refl

  record Repeats (id : Text) (a : Answer p) : Type 0 where
    repeats : a.response.status ≡ 200 → Answers id a.db a.response

  file-Repeats :
      (id : Text) (job : Job p) (cues : List Cue) (format : Format) (layout : Layout) (db : Db p)
      → Queue.get_job p id db ≡ ok (some job)
      → Queue.cues p id db ≡ ok cues
      → is_empty cues ≡ false
      → Repeats id (
          reply p
            (Download.file_response p s job cues format layout)
            (Download.remember p s id job format layout db))
  unfolding reply
  file-Repeats id job cues format layout db h e full =
      let m = remember-Remembers p s quiet id job format layout db h in
      let after = Download.remember p s id job format layout db in
      record {
        repeats = λ q.
            download-answer id m.stored cues after m.found (m.cues ∙ e) full
            ∙ ap (λ f. Download.file_response p s m.stored cues f m.stored.layout) m.format_is
            ∙ ap (λ l. Download.file_response p s m.stored cues format l) m.layout_is
            ∙ file_response-same job m.stored cues format layout m.name m.language;
      }

  full-Repeats :
      (id : Text) (job : Job p) (cues : List Cue) (format : Format) (layout : Layout) (db : Db p)
      → Queue.get_job p id db ≡ ok (some job)
      → Queue.cues p id db ≡ ok cues
      → (b : Bool) → is_empty cues ≡ b
      → Repeats id (
          answered p db (
            if b
            then err (conflict p (codes "this job has no subtitles yet"))
            else ok (
                reply p
                  (Download.file_response p s job cues format layout)
                  (Download.remember p s id job format layout db))))
  unfolding answered
  full-Repeats id job cues format layout db h e true full =
      unfold conflict error_response in record { repeats = λ q. absurd (omega arith) }
  full-Repeats id job cues format layout db h e false full =
      file-Repeats id job cues format layout db h e full

  send_file-Repeats :
      (id : Text) (job : Job p) (format : Format) (layout : Layout) (db : Db p)
      → Queue.get_job p id db ≡ ok (some job)
      → Repeats id (Download.send_file p s id job format layout db)
  unfolding Download.send_file
  send_file-Repeats id job format layout db h =
      bind_holds p (Repeats id) db (or_500 p s (Queue.cues p id db)) _
        (λ cues e.
          full-Repeats id job cues format layout db h (or_500_ok p s _ cues e) (is_empty cues) refl)
        (λ r e.
          unfold reply in record { repeats = λ q. absurd (omega (arith, or_500_err p s _ r e)) })

  sent-Repeats :
      (id : Text) (job : Job p) (format : Format) (layout : Layout) (db : Db p)
      → Queue.get_job p id db ≡ ok (some job)
      → Repeats id
          (answered p db (ok (Download.send_file p s id job format layout (s.meddle 1 db))))
  unfolding answered
  sent-Repeats id job format layout db h =
      send_file-Repeats id job format layout (s.meddle 1 db)
        (subst (λ d. Queue.get_job p id d ≡ ok (some job)) (sym (quiet 1 db)) h)

  refused : (id : Text) (db : Db p) (r : Response p) → 400 ≤ r.status → Repeats id (reply p r db)
  unfolding reply
  refused id db r h = record { repeats = λ q. absurd (omega arith) }

  layout-Repeats :
      (id : Text) (query : DownloadQuery) (job : Job p) (format : Format) (db : Db p)
      → Queue.get_job p id db ≡ ok (some job)
      → Repeats id (
          answered p db (
            chosen_layout p query.layout job.layout >>= λ layout.
            ok (Download.send_file p s id job format layout (s.meddle 1 db))))
  layout-Repeats id query job format db h =
      bind_holds p (Repeats id) db (chosen_layout p query.layout job.layout) _
        (λ layout e. sent-Repeats id job format layout db h)
        (λ r e. refused id db r (omega (arith, chosen_layout_400 p query.layout job.layout r e)))

  download-Repeats :
      (id : Text) (query : DownloadQuery) (db : Db p)
      → Repeats id (Download.download p s id query db)
  unfolding Download.download
  download-Repeats id query db =
      let db₀ = s.meddle 0 db in
      bind_holds p (Repeats id) db₀ (or_404 p s (Queue.get_job p id db₀)) _
        (λ job e.
          bind_holds p (Repeats id) db₀ (chosen_format p query.format job.format) _
            (λ format e₁. layout-Repeats id query job format db₀ (or_404_ok p s _ job e))
            (λ r e₁.
              refused id db₀ r (omega (arith, chosen_format_400 p query.format job.format r e₁))))
        (λ r e. refused id db₀ r (or_404_err p s _ r e))

  -- A download that is answered with the file, in whatever format and layout it asked for, is followed
  -- by downloads without a query that answer the same file under the same name, where no other task
  -- works on the database meanwhile.
  pub download-again :
      (id : Text) (query : DownloadQuery) (db : Db p)
      → (Download.download p s id query db).response.status ≡ 200
      → (Download.download p s id no_query (Download.download p s id query db).db).response
        ≡ (Download.download p s id query db).response
  download-again id query db h = (download-Repeats id query db).repeats h
