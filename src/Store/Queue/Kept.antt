-- ===== src/Store/Queue/Kept.antt =====
-- The job of an id behind the statements of backend/src/store.rs that a request runs on it.
use ryu_subtitles.Prelude.{
  ℕ, ◌≡◌, refl, sym, ap, subst, ◌∙◌, Bool, true, not, none, some, List, [], ◌∷◌, arith, Result, ok,
  bind_passed, ok-injective, Bool-cases, inl, inr,
}
use ryu_subtitles.Text.{Text, codes, text_eq, contains_text}
use ryu_subtitles.Text.Equal.{text_eq→eq}
use ryu_subtitles.Cues.Model.{Format, Layout}
use ryu_subtitles.Store.Model.{Platform, Row, Job, Db, StoreError, is_terminal, parse_status}
use ryu_subtitles.Store.Rows.{row_to_job, opened, opened_opt, find_row, is_active, seal_text}
use ryu_subtitles.Store.Jobs
use ryu_subtitles.Store.Jobs.Updates.{update-Updates, find_row_hit}
use ryu_subtitles.Store.Jobs.Content.{Opens, opened_seal}
use ryu_subtitles.Store.Queue
use ryu_subtitles.Store.Queue.Readable.{IsReadable, get_readable}

-- The statuses that are read as terminal are those that the guard of a statement knows.
abbrev ended_names : List Text
ended_names = codes "completed" ∷ codes "failed" ∷ codes "canceled" ∷ []

terminal_of_name :
    (value : Text) (name : Text)
    → text_eq value name ≡ true
    → is_terminal (parse_status name) ≡ contains_text name ended_names
    → is_terminal (parse_status value) ≡ contains_text value ended_names
terminal_of_name value name e h =
    subst (λ v. is_terminal (parse_status v) ≡ contains_text v ended_names)
      (sym (text_eq→eq value name e)) h

pub is_terminal-parse_status :
    (value : Text) → is_terminal (parse_status value) ≡ contains_text value ended_names
unfolding is_terminal parse_status contains_text
is_terminal-parse_status value = elim (Bool-cases (text_eq value (codes "transcribing"))) [
  | inl e ↦ terminal_of_name value (codes "transcribing") e (unfold text_eq in refl)
  | inr e ↦ elim (Bool-cases (text_eq value (codes "translating"))) [
    | inl f ↦ terminal_of_name value (codes "translating") f (unfold text_eq in refl)
    | inr f ↦ ground arith
  ]
]

module _ (p : Platform) where
  status-row_to_job :
      (r : Row p) (j : Job p) → row_to_job p r ≡ ok j → j.status ≡ parse_status r.status
  unfolding row_to_job
  status-row_to_job r j h =
      let (path, _, h₁) =
        bind_passed (opened p (codes "jobs.source_path") r.id r.source_path) _ h in
      let (name, _, h₂) =
        bind_passed (opened p (codes "jobs.source_name") r.id r.source_name) _ h₁ in
      let (error, _, h₃) = bind_passed (opened_opt p (codes "jobs.error") r.id r.error) _ h₂ in
      let (output, _, h₄) =
        bind_passed (opened_opt p (codes "jobs.output_path") r.id r.output_path) _ h₃ in
      sym (ap (λ (k : Job p). k.status) (ok-injective _ j h₄))

  -- A job that reads as ended is one that no guarded statement changes, and the other way round.
  pub is_active-row_to_job :
      (r : Row p) (j : Job p) → row_to_job p r ≡ ok j → is_active p r ≡ not (is_terminal j.status)
  unfolding is_active
  is_active-row_to_job r j h =
      ap not (sym (ap is_terminal (status-row_to_job r j h) ∙ is_terminal-parse_status r.status))

  module _ (test : Row p → Bool) (change : Row p → Result StoreError (Row p))
      (keeps : (r r' : Row p) → change r ≡ ok r' → r'.id ≡ r.id)
      (opens : (r r' : Row p)
        → test r ≡ true
        → change r ≡ ok r'
        → IsReadable p r
        → IsReadable p r') where
    -- The row that a statement hits is read back.
    pub get_job-update :
        (id : Text) (db : Db p) (r : Row p) (out : ℕ × Db p)
        → find_row p id db.jobs ≡ some r
        → IsReadable p r
        → test r ≡ true
        → Jobs.update p test change db ≡ ok out
        → (r' : Row p) × (j : Job p) × (change r ≡ ok r')
          × (row_to_job p r' ≡ ok j)
          × (Queue.get_job p id out.1 ≡ ok (some j))
    get_job-update id db r out here h t run =
        let (r', c, f) =
          find_row_hit p test change keeps id r (update-Updates p test change db out run) t here in
        let (j, e, g) = get_readable p id out.1 r' f (opens r r' t c h) in (r', j, c, e, g)

  pub requeued-id :
      (id : Text) (now : ℕ) (r r' : Row p) → Jobs.write_requeued p id now r ≡ ok r' → r'.id ≡ r.id
  unfolding Jobs.write_requeued seal_text
  requeued-id id now r r' h = ground arith

  pub requeued-IsReadable :
      (id : Text) (now : ℕ) (r r' : Row p)
      → Jobs.has_id p id r ≡ true
      → Jobs.write_requeued p id now r ≡ ok r'
      → IsReadable p r
      → IsReadable p r'
  unfolding Jobs.write_requeued opened_opt
  requeued-IsReadable id now r r' t c h =
      let (sealed, _, e) = bind_passed (seal_text p (codes "jobs.cues") id (codes "[]")) _ c in
      subst (IsReadable p) (ok-injective _ r' e) (record {
        path = h.path;
        path_opens = h.path_opens;
        name = h.name;
        name_opens = h.name_opens;
        error = none;
        error_opens = refl;
        output = h.output;
        output_opens = h.output_opens;
      })

  pub options-id :
      (format : Format) (layout : Layout) (now : ℕ) (r r' : Row p)
      → Jobs.write_render_options p format layout now r ≡ ok r'
      → r'.id ≡ r.id
  unfolding Jobs.write_render_options
  options-id format layout now r r' h = ground arith

  pub options-IsReadable :
      (format : Format) (layout : Layout) (now : ℕ) (r r' : Row p)
      → Jobs.write_render_options p format layout now r ≡ ok r'
      → IsReadable p r
      → IsReadable p r'
  unfolding Jobs.write_render_options
  options-IsReadable format layout now r r' c h =
      subst (IsReadable p) (ok-injective _ r' c) (record {
        path = h.path;
        path_opens = h.path_opens;
        name = h.name;
        name_opens = h.name_opens;
        error = h.error;
        error_opens = h.error_opens;
        output = h.output;
        output_opens = h.output_opens;
      })

  module _ (law : Opens p) where
    pub canceled-id :
        (id reason : Text) (now : ℕ) (r r' : Row p)
        → Jobs.write_canceled p id reason now r ≡ ok r'
        → r'.id ≡ r.id
    unfolding Jobs.write_canceled seal_text
    canceled-id id reason now r r' h = ground arith

    and_has_id : (id : Text) (r : Row p) → Jobs.is_active_id p id r ≡ true → text_eq r.id id ≡ true
    unfolding Jobs.is_active_id Jobs.has_id
    and_has_id id r h = ground arith

    opened_again :
        (id reason : Text) (r : Row p) (sealed : p.Cell)
        → r.id ≡ id
        → seal_text p (codes "jobs.error") id reason ≡ ok sealed
        → opened_opt p (codes "jobs.error") r.id (some sealed) ≡ ok (some reason)
    unfolding opened_opt
    opened_again id reason r sealed same e =
        rw same (rw (opened_seal p law (codes "jobs.error") id reason sealed e) refl)

    pub canceled-IsReadable :
        (id reason : Text) (now : ℕ) (r r' : Row p)
        → Jobs.is_active_id p id r ≡ true
        → Jobs.write_canceled p id reason now r ≡ ok r'
        → IsReadable p r
        → IsReadable p r'
    unfolding Jobs.write_canceled
    canceled-IsReadable id reason now r r' t c h =
        let (sealed, s, e) = bind_passed (seal_text p (codes "jobs.error") id reason) _ c in
        let same = text_eq→eq r.id id (and_has_id id r t) in
        subst (IsReadable p) (ok-injective _ r' e) (record {
          path = h.path;
          path_opens = h.path_opens;
          name = h.name;
          name_opens = h.name_opens;
          error = some reason;
          error_opens = opened_again id reason r sealed same s;
          output = h.output;
          output_opens = h.output_opens;
        })
