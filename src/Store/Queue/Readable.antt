-- ===== src/Store/Queue/Readable.antt =====
-- Rows whose sealed columns open, and `get_job` of backend/src/store.rs on them.
use ryu_subtitles.Prelude.{
  List, Result, ◌>>=◌, ◌≡◌, refl, Option, none, some, arith, ok, bind_passed, Option-cases, inl,
  inr,
}
use ryu_subtitles.Text.{Text, codes}
use ryu_subtitles.Cues.Model.{Cue}
use ryu_subtitles.Store.Model.{StoreError, Platform, Row, Job, Db}
use ryu_subtitles.Store.Rows.{row_to_job, opened, opened_opt, find_row}
use ryu_subtitles.Store.Queue

module _ (p : Platform) where
  -- The sealed columns that `row_to_job` opens do open.
  pub record IsReadable (r : Row p) : Type 0 where
    pub path : Text
    pub path_opens : opened p (codes "jobs.source_path") r.id r.source_path ≡ ok path
    pub name : Text
    pub name_opens : opened p (codes "jobs.source_name") r.id r.source_name ≡ ok name
    pub error : Option Text
    pub error_opens : opened_opt p (codes "jobs.error") r.id r.error ≡ ok error
    pub output : Option Text
    pub output_opens : opened_opt p (codes "jobs.output_path") r.id r.output_path ≡ ok output

  pub row_to_job-IsReadable : (r : Row p) (j : Job p) → row_to_job p r ≡ ok j → IsReadable r
  unfolding row_to_job
  row_to_job-IsReadable r j h =
      let (path, e₁, h₁) =
        bind_passed (opened p (codes "jobs.source_path") r.id r.source_path) _ h in
      let (name, e₂, h₂) =
        bind_passed (opened p (codes "jobs.source_name") r.id r.source_name) _ h₁ in
      let (error, e₃, h₃) = bind_passed (opened_opt p (codes "jobs.error") r.id r.error) _ h₂ in
      let (output, e₄, _) =
        bind_passed (opened_opt p (codes "jobs.output_path") r.id r.output_path) _ h₃ in
      record {
        path = path;
        path_opens = e₁;
        name = name;
        name_opens = e₂;
        error = error;
        error_opens = e₃;
        output = output;
        output_opens = e₄;
      }

  pub readable_job : (r : Row p) → IsReadable r → (j : Job p) × (row_to_job p r ≡ ok j)
  unfolding row_to_job
  readable_job r h = rw (h.path_opens, h.name_opens, h.error_opens, h.output_opens) (_, refl)

  pub get_row :
      (id : Text) (db : Db p) (r : Row p) (j : Job p)
      → find_row p id db.jobs ≡ some r
      → row_to_job p r ≡ ok j
      → Queue.get_job p id db ≡ ok (some j)
  unfolding Queue.get_job
  get_row id db r j here e = ground arith

  row_of_get :
      (id : Text) (db : Db p) (r : Row p) (j : Job p)
      → find_row p id db.jobs ≡ some r
      → Queue.get_job p id db ≡ ok (some j)
      → row_to_job p r ≡ ok j
  unfolding Queue.get_job
  row_of_get id db r j here h = ground arith

  no_get :
      (id : Text) (db : Db p) (j : Job p)
      → find_row p id db.jobs ≡ none
      → Queue.get_job p id db ≡ ok (some j)
      → ⊥
  unfolding Queue.get_job
  no_get id db j here h = ground arith

  pub get_job_found :
      (id : Text) (db : Db p) (j : Job p)
      → Queue.get_job p id db ≡ ok (some j)
      → (r : Row p) × (find_row p id db.jobs ≡ some r) × (row_to_job p r ≡ ok j)
  get_job_found id db j h = elim (Option-cases (find_row p id db.jobs)) [
    | inl e ↦ absurd (no_get id db j e h)
    | inr (r, e) ↦ (r, e, row_of_get id db r j e h)
  ]

  pub get_readable :
      (id : Text) (db : Db p) (r : Row p)
      → find_row p id db.jobs ≡ some r
      → IsReadable r
      → (j : Job p) × (row_to_job p r ≡ ok j) × (Queue.get_job p id db ≡ ok (some j))
  get_readable id db r here h = let (j, e) = readable_job r h in (j, e, get_row id db r j here e)

  -- What `cues` reads from a row.
  abbrev pub read_cues : Text → p.Cell → Result StoreError (List Cue)
  read_cues id cell = do
    json ← opened p (codes "jobs.cues") id cell
    ok (Queue.cues_or_nil p (p.cues_from_json json))

  pub cues_found :
      (id : Text) (db : Db p) (r : Row p)
      → find_row p id db.jobs ≡ some r
      → Queue.cues p id db ≡ read_cues r.id r.cues
  unfolding Queue.cues
  cues_found id db r here = ground (arith, here)
