-- ===== src/Store/Machine/Refines.antt =====
-- The calls of backend/src/store.rs against the abstract machine.
use ryu_subtitles.Prelude.{
  ℕ, ◌≡◌, refl, ap, subst, ◌∙◌, Bool, true, false, not, inl, inr, Option, none, some, List, [], ◌∷◌,
  ◌++◌, arith, Result, ok, err, bind_passed, ok-injective, Bool-cases, Option-cases, retain,
  if◌then◌else◌,
}
use ryu_subtitles.Text.{Text, codes, text_eq}
use ryu_subtitles.Text.Equal.{text_eq→eq, text_eq_sym}
use ryu_subtitles.Cues.Model.{Format, Layout}
use ryu_subtitles.Store.Model.{
  Platform, Row, Job, Db, NewJob, Settings, StoreError, duplicate_id, Status, queued, as_str,
  parse_status-as_str,
}
use ryu_subtitles.Store.Rows.{find_row, seal_opt, seal_text}
use ryu_subtitles.Store.Jobs
use ryu_subtitles.Store.Jobs.Updates.{update-Updates}
use ryu_subtitles.Store.Jobs.Guarded.{call}
use ryu_subtitles.Store.Queue.Kept.{requeued-id, options-id}
use ryu_subtitles.Store.Queue.Created.{id-new_row}
use ryu_subtitles.Store.Machine.Calls.{behind_status, kept_behind, call-move}
use ryu_subtitles.Store.Machine.Found.{deleted-none, deleted-other, appended-some, appended-none}
use ryu_subtitles.Store.Machine.Moves.{updated_status}
use ryu_subtitles.Store.Machine.{
  Command, guarded, set_output_path, set_render_options, requeue_job, delete_job, create_job,
  save_settings, status_of, saved, exec, exec_all, row_status, passed, is_done, served, each, born,
  move, moves,
}

module _ (p : Platform) where
  pub path-keeps :
      (id : Text) (path : Option Text) (now : ℕ) (r r' : Row p)
      → Jobs.write_output_path p id path now r ≡ ok r'
      → (r'.id ≡ r.id) × (r'.status ≡ r.status)
  unfolding Jobs.write_output_path seal_opt
  path-keeps id none now r r' h = ground arith
  path-keeps id (some t) now r r' h = ground arith

  options-status :
      (format : Format) (layout : Layout) (now : ℕ) (r r' : Row p)
      → Jobs.write_render_options p format layout now r ≡ ok r'
      → r'.status ≡ r.status
  unfolding Jobs.write_render_options
  options-status format layout now r r' h = ground arith

  requeued-status :
      (id : Text) (now : ℕ) (r r' : Row p)
      → Jobs.write_requeued p id now r ≡ ok r'
      → r'.status ≡ as_str queued
  unfolding Jobs.write_requeued seal_text as_str
  requeued-status id now r r' h = ground arith

  requeue-move :
      (id other : Text) (now : ℕ) (db : Db p) (out : ℕ × Db p)
      → Jobs.update p (Jobs.has_id p other) (Jobs.write_requeued p other now) db ≡ ok out
      → status_of p id out.1
        ≡ each p (λ a. if text_eq id other then queued else a) (status_of p id db)
  unfolding Jobs.has_id
  requeue-move id other now db out h =
      updated_status p (Jobs.has_id p other) (Jobs.write_requeued p other now)
        (requeued-id p other now) id (λ a. if text_eq id other then queued else a)
        (λ r r' same t c.
          rw (requeued-status other now r r' c, parse_status-as_str queued, ← same, t) refl)
        (λ r same t. rw (← same, t) refl)
        (update-Updates p (Jobs.has_id p other) (Jobs.write_requeued p other now) db out h)

  one_row-born :
      (id other : Text) (row : Row p)
      → row.id ≡ other
      → row.status ≡ as_str queued
      → row_status p (find_row p id (row ∷ [])) ≡ born p (text_eq id other) none
  unfolding find_row
  one_row-born id other row same h = elim (Bool-cases (text_eq id other)) [
    | inl e ↦ rw (same, text_eq_sym other id, e, h, parse_status-as_str queued) refl
    | inr e ↦ rw (same, text_eq_sym other id, e) refl
  ]

  append-born :
      (id other : Text) (row : Row p) (rows : List (Row p))
      → row.id ≡ other
      → row.status ≡ as_str queued
      → row_status p (find_row p id (rows ++ row ∷ []))
        ≡ born p (text_eq id other) (row_status p (find_row p id rows))
  append-born id other row rows same h = elim (Option-cases (find_row p id rows)) [
    | inl e ↦ rw (e, appended-none p id row rows e) (one_row-born id other row same h)
    | inr (r, e) ↦ rw (e, appended-some p id r row rows e) (still (text_eq id other) _)
  ]
    where
      still : (b : Bool) (a : Status) → some a ≡ born p b (some a)
      still true a = refl
      still false a = refl

  delete-move :
      (id other : Text) (rows : List (Row p))
      → row_status p (find_row p id (retain (λ r. not (Jobs.has_id p other r)) rows))
        ≡ (if text_eq id other then none else row_status p (find_row p id rows))
  delete-move id other rows = elim (Bool-cases (text_eq id other)) [
    | inl e ↦
        subst
          (λ i.
            row_status p (find_row p id (retain (λ r. not (Jobs.has_id p i r)) rows))
            ≡ (if text_eq id other then none else row_status p (find_row p id rows)))
          (text_eq→eq id other e) (rw (deleted-none p id rows, e) refl)
    | inr e ↦ rw (deleted-other p other id rows (text_eq_sym other id ∙ e), e) refl
  ]

  new_row-status :
      (id : Text) (new : NewJob) (now : ℕ) (row : Row p)
      → Jobs.new_row p id new now ≡ ok row
      → row.status ≡ as_str queued
  unfolding Jobs.new_row
  new_row-status id new now row h =
      let (path, _, h₁) =
        bind_passed (seal_text p (codes "jobs.source_path") id new.source_path) _ h in
      let (name, _, h₂) =
        bind_passed (seal_text p (codes "jobs.source_name") id new.source_name) _ h₁ in
      let (cues, _, h₃) = bind_passed (seal_text p (codes "jobs.cues") id (codes "[]")) _ h₂ in
      subst (λ (r : Row p). r.status ≡ as_str queued) (ok-injective _ row h₃) refl

  inserted :
      (b : Bool) (r : Result StoreError (Job p × Db p)) (out : Job p × Db p)
      → (if b then err duplicate_id else r) ≡ ok out
      → r ≡ ok out
  inserted true r out h = cc
  inserted false r out h = h

  create-move :
      (id other : Text) (new : NewJob) (now : ℕ) (db : Db p) (out : Job p × Db p)
      → Jobs.create_job p other new now db ≡ ok out
      → status_of p id out.1 ≡ born p (text_eq id other) (status_of p id db)
  unfolding Jobs.create_job
  create-move id other new now db out h =
      let (row, e, h₁) = bind_passed (Jobs.new_row p other new now) _ h in
      let same = ok-injective _ out (inserted (Jobs.is_some (find_row p other db.jobs)) _ out h₁) in
      subst
        (λ (o : Job p × Db p). status_of p id o.1 ≡ born p (text_eq id other) (status_of p id db))
        same
        (append-born id other row db.jobs (id-new_row p other new now row e)
          (new_row-status other new now row e))

  saved-move :
      (id : Text) (settings : Settings) (db : Db p)
      → status_of p id (saved p db (Jobs.save_settings p settings db)) ≡ status_of p id db
  unfolding Jobs.save_settings
  saved-move id settings db = elim (Option-cases (p.settings_to_json settings)) [
    | inl e ↦ rw e refl
    | inr (blob, e) ↦ rw e refl
  ]

  each_same : (o : Option Status) → each p (λ a. a) o ≡ o
  each_same none = refl
  each_same (some a) = refl

  either_same : {A : Type 0} (b : Bool) (a : A) → a ≡ (if b then a else a)
  either_same true a = refl
  either_same false a = refl

  -- A call moves every job as the machine says, or fails and moves none.
  exec-move :
      (c : Command p) (db : Db p) (id : Text)
      → status_of p id (exec p c db)
        ≡ (if is_done p c db then move p c id (status_of p id db) else status_of p id db)
  unfolding exec is_done move Jobs.set_output_path Jobs.set_render_options Jobs.requeue
      Jobs.delete_job
  exec-move (guarded c) db id =
      behind_status p id db _ (call p c db) (λ out h. call-move p c db out id h)
  exec-move (set_output_path other path now) db id = behind_status p id db _ _ (λ out h.
      kept_behind p (Jobs.has_id p other) _ id db out
        (λ r r' c. (path-keeps other path now r r' c).0)
        (λ r r' c. (path-keeps other path now r r' c).1) h
      ∙ each_same (status_of p id db))
  exec-move (set_render_options other format layout now) db id = behind_status p id db _ _ (λ out h.
      kept_behind p (Jobs.has_id p other) _ id db out (options-id p format layout now)
        (options-status format layout now) h
      ∙ each_same (status_of p id db))
  exec-move (requeue_job other now) db id =
      behind_status p id db _ _ (λ out h. requeue-move id other now db out h)
  exec-move (delete_job other) db id = delete-move id other db.jobs
  exec-move (create_job other new now) db id =
      behind_status p id db _ (Jobs.create_job p other new now db)
        (λ out h. create-move id other new now db out h)
  exec-move (save_settings settings) db id =
      saved-move id settings db
      ∙ either_same (passed p (Jobs.save_settings p settings db)) (status_of p id db)

  -- Whatever writing calls the program makes, in whatever order and for whatever jobs, the
  -- status of every id is the one that the machine computes from the calls that did not fail:
  -- `create_job` gives the id a queued job; a guarded call on it takes an active job to the
  -- status that the call names, and the restart a running one to canceled; progress, cues,
  -- paths, options and settings move nothing; `requeue` queues the job of the id whatever its
  -- status, and `delete_job` forgets it.
  pub exec_all-moves :
      (cs : List (Command p)) (db : Db p) (id : Text)
      → status_of p id (exec_all p cs db) ≡ moves p (served p cs db) id (status_of p id db)
  unfolding exec_all served moves
  exec_all-moves [] db id = refl
  exec_all-moves (c ∷ cs) db id =
      let rest = exec_all-moves cs (exec p c db) id in
      let one = exec-move c db id in
      elim (Bool-cases (is_done p c db)) [
        | inl e ↦ rw e (rest ∙ ap (moves p (served p cs (exec p c db)) id) (rw e at one))
        | inr e ↦ rw e (rest ∙ ap (moves p (served p cs (exec p c db)) id) (rw e at one))
      ]
