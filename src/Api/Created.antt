-- ===== src/Api/Created.antt =====
-- `create_job` of backend/src/api.rs where it answers 201, whatever other tasks do.
use ryu_subtitles.Prelude.{
  ℕ, ◌≡◌, refl, ap, subst, ◌∙◌, ◌≤◌, ◌⊎◌, inl, inr, Option, none, some, arith, Result, ok, err,
  ok_or, ◌>>=◌, bind_passed, ok-injective,
}
use ryu_subtitles.Text.{Text}
use ryu_subtitles.Cues.Model.{Format, Layout, parse_format}
use ryu_subtitles.Languages.{Language, languages, find}
use ryu_subtitles.Languages.Find.{IsEntry, find-IsEntry}
use ryu_subtitles.Library.{PathError, outside_roots, missing, not_media, validate_source, or_else}
use ryu_subtitles.Store.Model.{Platform, Job, NewJob, Db, Settings, queued}
use ryu_subtitles.Store.Jobs as Store
use ryu_subtitles.Store.Jobs.Content.{Opens}
use ryu_subtitles.Store.Queue
use ryu_subtitles.Store.Queue.Created.{get_job-create_job}
use ryu_subtitles.Api.Model.{
  Response, Answer, Site, CreateJobInput, job_body, decorate, answered, reply, or_500,
  chosen_format, chosen_layout, chosen_language, parse_layout, bad_request, error_response,
  path_error, path_status,
}
use ryu_subtitles.Api.Jobs
use ryu_subtitles.Api.Early.{bind_holds, or_500_ok, or_500_err}

module _ (p : Platform) where
  pub bind_failed :
      {A B : Type 0} (o : Result (Response p) A) (next : A → Result (Response p) B) (r : Response p)
      → o >>= next ≡ err r
      → (o ≡ err r) ⊎ ((a : A) × (o ≡ ok a) × (next a ≡ err r))
  bind_failed (ok a) next r h = inr (a, refl, h)
  bind_failed (err e) next r h = inl cc

  pub ok_or_400 :
      {A : Type 0} (o : Option A) (message : Text) (r : Response p)
      → ok_or o (bad_request p message) ≡ err r
      → r.status ≡ 400
  unfolding bad_request error_response
  ok_or_400 (some a) message r h = cc
  ok_or_400 none message r h = ground arith

  pub chosen_format_400 :
      (o : Option Text) (kept : Format) (r : Response p)
      → chosen_format p o kept ≡ err r
      → r.status ≡ 400
  unfolding chosen_format
  chosen_format_400 none kept r h = cc
  chosen_format_400 (some f) kept r h = ok_or_400 (parse_format f) _ r h

  pub chosen_layout_400 :
      (o : Option Text) (kept : Layout) (r : Response p)
      → chosen_layout p o kept ≡ err r
      → r.status ≡ 400
  unfolding chosen_layout
  chosen_layout_400 none kept r h = cc
  chosen_layout_400 (some l) kept r h = ok_or_400 (parse_layout l) _ r h

  module _ (s : Site p) where
    new_job_of_400 :
        (source : Text) (input : CreateJobInput) (settings : Settings) (r : Response p)
        → Jobs.new_job_of p s source input settings ≡ err r
        → r.status ≡ 400
    unfolding Jobs.new_job_of chosen_language
    new_job_of_400 source input settings r h =
        elim (bind_failed
          (chosen_language p (or_else input.target_language settings.target_language)) _ r h) [
            | inl e ↦
                ok_or_400 (find (or_else input.target_language settings.target_language)) _ r e
            | inr (l, _, h₁) ↦
                elim (bind_failed (chosen_format p input.format settings.format) _ r h₁) [
                  | inl e ↦ chosen_format_400 input.format settings.format r e
                  | inr (f, _, h₂) ↦
                      elim (bind_failed (chosen_layout p input.layout settings.layout) _ r h₂) [
                        | inl e ↦ chosen_layout_400 input.layout settings.layout r e
                        | inr (k, _, h₃) ↦ cc
                      ]
                ]
          ]

    -- What the row of a new job names: the text of the canonical path, and a language of the table.
    record Asks (source : Text) (new : NewJob) : Type 0 where
      path : new.source_path ≡ s.files.to_string_lossy source
      language : Language
      entry : (code : Text) × IsEntry code language languages
      target : new.target_language ≡ language.code

    given_value :
        {A : Type 0} (o : Option A) (r : Response p) (a : A) → ok_or o r ≡ ok a → o ≡ some a
    given_value (some x) r a h = cc
    given_value none r a h = cc

    new_job_of-Asks :
        (source : Text) (input : CreateJobInput) (settings : Settings) (new : NewJob)
        → Jobs.new_job_of p s source input settings ≡ ok new
        → Asks source new
    unfolding Jobs.new_job_of chosen_language
    new_job_of-Asks source input settings new h =
        let code = or_else input.target_language settings.target_language in
        let (l, e, h₁) = bind_passed (chosen_language p code) _ h in
        let (f, _, h₂) = bind_passed (chosen_format p input.format settings.format) _ h₁ in
        let (k, _, h₃) = bind_passed (chosen_layout p input.layout settings.layout) _ h₂ in
        subst (Asks source) (ok-injective _ new h₃) (record {
          path = refl;
          language = l;
          entry = (_, find-IsEntry code l (given_value (find code) _ l e));
          target = refl;
        })

    -- The job that a request to create one made: it is in the answer and is read back, queued;
    -- its path is the text of one that has passed the gate, and its language is one of the table.
    pub record IsCreated (id : Text) (input : CreateJobInput) (a : Answer p) : Type 0 where
      pub job : Job p
      pub shown : a.response.body ≡ job_body (decorate p s.files job)
      pub stored : Queue.get_job p id a.db ≡ ok (some job)
      pub waits : job.status ≡ queued
      pub path : Text
      pub gate : validate_source s.files input.source_path ≡ ok path
      pub shows_path : job.source_path ≡ s.files.to_string_lossy path
      pub language : Language
      pub entry : (code : Text) × IsEntry code language languages
      pub target : job.target_language ≡ language.code

    record Creates (id : Text) (input : CreateJobInput) (a : Answer p) : Type 0 where
      creates : a.response.status ≡ 201 → IsCreated id input a

    module _ (law : Opens p) where
      created-IsCreated :
          (id source : Text) (input : CreateJobInput) (new : NewJob) (now : ℕ) (db : Db p)
          (done : Job p × Db p)
          → validate_source s.files input.source_path ≡ ok source
          → Asks source new
          → Store.create_job p id new now db ≡ ok done
          → IsCreated id input (Jobs.created p s done)
      unfolding Jobs.created
      created-IsCreated id source input new now db done gate asks run =
          let (stored, same, _) = get_job-create_job p law id new now db done run in
          record {
            job = done.0;
            shown = refl;
            stored = stored;
            waits = unfold Store.new_job in ap (λ (j : Job p). j.status) same;
            path = source;
            gate = gate;
            shows_path = unfold Store.new_job in ap (λ (j : Job p). j.source_path) same ∙ asks.path;
            language = asks.language;
            entry = asks.entry;
            target =
                unfold Store.new_job in ap (λ (j : Job p). j.target_language) same ∙ asks.target;
          }

      store_job-Creates :
          (id source : Text) (input : CreateJobInput) (new : NewJob) (db : Db p)
          → validate_source s.files input.source_path ≡ ok source
          → Asks source new
          → Creates id input (Jobs.store_job p s id new db)
      unfolding Jobs.store_job answered
      store_job-Creates id source input new db gate asks =
          bind_holds p (Creates id input) db (or_500 p s (Store.create_job p id new (s.now 1) db)) _
            (λ done e. record {
              creates = λ q.
                  created-IsCreated id source input new (s.now 1) db done gate asks
                    (or_500_ok p s _ done e);
            })
            (λ r e.
              unfold reply in
              record { creates = λ q. absurd (omega (arith, or_500_err p s _ r e)) })

      queue_job-Creates :
          (id source : Text) (input : CreateJobInput) (db : Db p)
          → validate_source s.files input.source_path ≡ ok source
          → Creates id input (Jobs.queue_job p s id source input db)
      unfolding Jobs.queue_job
      queue_job-Creates id source input db gate =
          let settings = Queue.settings p db in
          bind_holds p (Creates id input) db (Jobs.new_job_of p s source input settings) _
            (λ new e.
              unfold answered in
              store_job-Creates id source input new (s.meddle 1 db) gate
                (new_job_of-Asks source input settings new e))
            (λ r e.
              unfold reply in
              record {
                creates = λ q. absurd (omega (arith, new_job_of_400 source input settings r e));
              })

      or_path_error_ok :
          (o : Result PathError Text) (source : Text)
          → Jobs.or_path_error p s o ≡ ok source
          → o ≡ ok source
      unfolding Jobs.or_path_error
      or_path_error_ok (ok x) source h = cc
      or_path_error_ok (err e) source h = cc

      or_path_error_err :
          (o : Result PathError Text) (r : Response p)
          → Jobs.or_path_error p s o ≡ err r
          → 400 ≤ r.status
      unfolding Jobs.or_path_error path_error error_response path_status
      or_path_error_err (ok x) r h = cc
      or_path_error_err (err e) r h = elim e [
        | outside_roots ↦ ground arith
        | missing ↦ ground arith
        | not_media ↦ ground arith
      ]

      create_job-Creates :
          (id : Text) (input : CreateJobInput) (db : Db p)
          → Creates id input (Jobs.create_job p s id input db)
      unfolding Jobs.create_job
      create_job-Creates id input db =
          bind_holds p (Creates id input) db
            (Jobs.or_path_error p s (validate_source s.files input.source_path)) _
            (λ source e.
              unfold answered in
              queue_job-Creates id source input (s.meddle 0 db) (or_path_error_ok _ source e))
            (λ r e.
              unfold reply in
              record { creates = λ q. absurd (omega (arith, or_path_error_err _ r e)) })

      -- A request to create a job that is answered with 201 has queued the job of the answer, which is
      -- read back under its id: its path is the text, by `to_string_lossy`, of the one that the
      -- gate let through, and its language is one of the table.
      pub create_job-IsCreated :
          (id : Text) (input : CreateJobInput) (db : Db p)
          → (Jobs.create_job p s id input db).response.status ≡ 201
          → IsCreated id input (Jobs.create_job p s id input db)
      create_job-IsCreated id input db h = (create_job-Creates id input db).creates h
