-- ===== src/Store/Queue/Created.antt =====
-- `create_job` and `get_job` of backend/src/store.rs together.
use ryu_subtitles.Prelude.{
  ℕ, ◌≡◌, refl, sym, ap, subst, true, Option, none, some, List, [], ◌∷◌, ◌++◌, arith, Bool-cases,
  inl, inr, Result, ok, err, bind_passed, ok-injective, if◌then◌else◌,
}
use ryu_subtitles.Text.{Text, codes, text_eq}
use ryu_subtitles.Text.Equal.{text_eq_refl}
use ryu_subtitles.Store.Model.{
  Platform, Row, Job, NewJob, Db, StoreError, duplicate_id, queued, parse_status-as_str,
  parse_layout-layout_str,
}
use ryu_subtitles.Store.Rows.{row_to_job, opened_opt, seal_text, find_row}
use ryu_subtitles.Store.Jobs
use ryu_subtitles.Store.Jobs.Content.{Opens, opened_seal, parse_format-extension}
use ryu_subtitles.Store.Queue

module _ (p : Platform) where
  pub id-new_row :
      (id : Text) (new : NewJob) (now : ℕ) (row : Row p)
      → Jobs.new_row p id new now ≡ ok row
      → row.id ≡ id
  unfolding Jobs.new_row
  id-new_row id new now row h =
      let (path, e₁, h₁) =
        bind_passed (seal_text p (codes "jobs.source_path") id new.source_path) _ h in
      let (name, e₂, h₂) =
        bind_passed (seal_text p (codes "jobs.source_name") id new.source_name) _ h₁ in
      let (cues, _, h₃) = bind_passed (seal_text p (codes "jobs.cues") id (codes "[]")) _ h₂ in
      subst (λ (r : Row p). r.id ≡ id) (ok-injective _ row h₃) refl

  pub not_taken :
      (o : Option (Row p)) (r : Result StoreError (Job p × Db p)) (out : Job p × Db p)
      → (if Jobs.is_some o then err duplicate_id else r) ≡ ok out
      → (o ≡ none) × (r ≡ ok out)
  not_taken none r out h = (refl, h)
  not_taken (some x) r out h = cc

module _ (p : Platform) (law : Opens p) where
  row_to_job-new_row :
      (id : Text) (new : NewJob) (now : ℕ) (row : Row p)
      → Jobs.new_row p id new now ≡ ok row
      → row_to_job p row ≡ ok (Jobs.new_job p id new now)
  unfolding Jobs.new_row
  row_to_job-new_row id new now row h =
      let (path, e₁, h₁) =
        bind_passed (seal_text p (codes "jobs.source_path") id new.source_path) _ h in
      let (name, e₂, h₂) =
        bind_passed (seal_text p (codes "jobs.source_name") id new.source_name) _ h₁ in
      let (cues, _, h₃) = bind_passed (seal_text p (codes "jobs.cues") id (codes "[]")) _ h₂ in
      let o₁ = opened_seal p law (codes "jobs.source_path") id new.source_path path e₁ in
      let o₂ = opened_seal p law (codes "jobs.source_name") id new.source_name name e₂ in
      subst (λ r. row_to_job p r ≡ ok (Jobs.new_job p id new now)) (ok-injective _ row h₃)
        (unfold row_to_job opened_opt Jobs.new_job in
          rw
            (
              o₁,
              o₂,
              parse_format-extension new.format,
              parse_layout-layout_str new.layout,
              parse_status-as_str queued,
            )
            refl)

  find_row-append :
      (id : Text) (row : Row p) (rows : List (Row p))
      → find_row p id rows ≡ none
      → text_eq row.id id ≡ true
      → find_row p id (rows ++ row ∷ []) ≡ some row
  unfolding find_row
  find_row-append id row [] h e = rw e refl
  find_row-append id row (r ∷ rows) h e = elim (Bool-cases (text_eq r.id id)) [
    | inl t ↦ cc (rw t at h)
    | inr t ↦ rw t (find_row-append id row rows (rw t at h) e)
  ]

  get_row :
      (id : Text) (db : Db p) (row : Row p) (job : Job p)
      → find_row p id db.jobs ≡ some row
      → row_to_job p row ≡ ok job
      → Queue.get_job p id db ≡ ok (some job)
  unfolding Queue.get_job
  get_row id db row job h e = ground arith

  -- A job that was created is read back under its id as it was returned, queued and with what the
  -- request asked for, and no row had its id before, where values open as they were sealed.
  pub get_job-create_job :
      (id : Text) (new : NewJob) (now : ℕ) (db : Db p) (out : Job p × Db p)
      → Jobs.create_job p id new now db ≡ ok out
      → (Queue.get_job p id out.1 ≡ ok (some out.0))
        × (out.0 ≡ Jobs.new_job p id new now)
        × (find_row p id db.jobs ≡ none)
  unfolding Jobs.create_job
  get_job-create_job id new now db out h =
      let (row, e, h₁) = bind_passed (Jobs.new_row p id new now) _ h in
      let (free, done) = not_taken p (find_row p id db.jobs) _ out h₁ in
      let same = ok-injective _ out done in
      let here = find_row-append id row db.jobs free (
        subst (λ i. text_eq i id ≡ true) (sym (id-new_row p id new now row e)) (text_eq_refl id)) in
      (
        subst (λ (o : Job p × Db p). Queue.get_job p id o.1 ≡ ok (some o.0)) same
            (get_row id _ row _ here (row_to_job-new_row id new now row e)),
        sym (ap (λ (o : Job p × Db p). o.0) same),
        free,
      )
