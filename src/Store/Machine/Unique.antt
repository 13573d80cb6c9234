-- ===== src/Store/Machine/Unique.antt =====
-- The ids of the table `jobs` of backend/src/store.rs.
use ryu_subtitles.Prelude.{
  ℕ, ◌≡◌, refl, sym, subst, ◌∙◌, Bool, false, inl, inr, none, List, [], ◌∷◌, ◌++◌, arith, Result,
  ok, err, bind_passed, ok-injective, Bool-cases, Option-cases, retain,
}
use ryu_subtitles.Text.{Text, text_eq}
use ryu_subtitles.Text.Equal.{text_eq→eq, text_eq_refl}
use ryu_subtitles.Store.Model.{Platform, Row, Job, Db, NewJob, Settings, StoreError}
use ryu_subtitles.Store.Rows.{find_row}
use ryu_subtitles.Store.Jobs
use ryu_subtitles.Store.Jobs.Updates.{Updates, done, hit, miss, update-Updates}
use ryu_subtitles.Store.Jobs.Guarded.{call}
use ryu_subtitles.Store.Jobs.Frozen.{call-Guards}
use ryu_subtitles.Store.Queue.Kept.{requeued-id, options-id}
use ryu_subtitles.Store.Queue.Created.{id-new_row, not_taken}
use ryu_subtitles.Store.Machine.{
  Command, guarded, set_output_path, set_render_options, requeue_job, delete_job, create_job,
  save_settings, behind, saved, exec, exec_all,
}
use ryu_subtitles.Store.Machine.Found.{find_row-none, appended-none}
use ryu_subtitles.Store.Machine.Refines.{path-keeps}

module _ (p : Platform) where
  -- No two rows have one id.
  abbrev pub Unique : List (Row p) → Type 0
  Unique [] = Unit
  Unique (r ∷ rs) = (find_row p r.id rs ≡ none) × Unique rs

  Updates-Unique :
      (test : Row p → Bool) (change : Row p → Result StoreError (Row p))
      (keeps : (r r' : Row p) → change r ≡ ok r' → r'.id ≡ r.id) {rs : List (Row p)} {n : ℕ}
      {rs' : List (Row p)}
      → Updates p test change rs n rs'
      → Unique rs
      → Unique rs'
  Updates-Unique test change keeps done h = tt
  Updates-Unique test change keeps (hit {r} {r'} {rs} {rs'} t c u) (free, h) = (
    subst (λ i. find_row p i rs' ≡ none) (sym (keeps r r' c))
        (find_row-none p test change keeps r.id u free),
    Updates-Unique test change keeps u h,
  )
  Updates-Unique test change keeps (miss {r} t u) (free, h) =
      (find_row-none p test change keeps r.id u free, Updates-Unique test change keeps u h)

  retain-none :
      (test : Row p → Bool) (id : Text) (rows : List (Row p))
      → find_row p id rows ≡ none
      → find_row p id (retain test rows) ≡ none
  unfolding find_row retain
  retain-none test id [] h = refl
  retain-none test id (r ∷ rows) h = ground (arith, retain-none test id rows)

  retain-Unique :
      (test : Row p → Bool) (rows : List (Row p)) → Unique rows → Unique (retain test rows)
  unfolding retain
  retain-Unique test [] h = tt
  retain-Unique test (r ∷ rows) (free, h) = elim (Bool-cases (test r)) [
    | inl e ↦ rw e (retain-none test r.id rows free, retain-Unique test rows h)
    | inr e ↦ rw e (retain-Unique test rows h)
  ]

  other_way : (a b : Text) → text_eq a b ≡ false → text_eq b a ≡ false
  other_way a b h = elim (Bool-cases (text_eq b a)) [
    | inr e ↦ e
    | inl e ↦
        let same : b ≡ a = text_eq→eq b a e in
        absurd (ground (arith, text_eq_refl a, subst (λ x. text_eq a x ≡ false) same h))
  ]

  behind_one :
      (id : Text) (r : Row p) (rows : List (Row p))
      → find_row p id (r ∷ rows) ≡ none
      → (text_eq r.id id ≡ false) × (find_row p id rows ≡ none)
  unfolding find_row
  behind_one id r rows h = ground arith

  single-none :
      (id : Text) (row : Row p) → text_eq row.id id ≡ false → find_row p id (row ∷ []) ≡ none
  unfolding find_row
  single-none id row h = rw h refl

  append-Unique :
      (row : Row p) (rows : List (Row p))
      → find_row p row.id rows ≡ none
      → Unique rows
      → Unique (rows ++ row ∷ [])
  append-Unique row [] free h = (unfold find_row in refl, tt)
  append-Unique row (r ∷ rows) free (alone, h) =
      let (differs, rest) = behind_one row.id r rows free in
      (
        appended-none p r.id row rows alone ∙ single-none r.id row (other_way r.id row.id differs),
        append-Unique row rows rest h,
      )

  behind-Unique :
      {A : Type 0} (db : Db p) (o : Result StoreError (A × Db p))
      → ((out : A × Db p) → o ≡ ok out → Unique out.1.jobs)
      → Unique db.jobs
      → Unique (behind p db o).jobs
  behind-Unique db (ok out) h u = h out refl
  behind-Unique db (err e) h u = u

  update-Unique :
      (test : Row p → Bool) (change : Row p → Result StoreError (Row p))
      (keeps : (r r' : Row p) → change r ≡ ok r' → r'.id ≡ r.id) (db : Db p)
      → Unique db.jobs
      → Unique (behind p db (Jobs.update p test change db)).jobs
  update-Unique test change keeps db h =
      behind-Unique db (Jobs.update p test change db)
        (λ out e. Updates-Unique test change keeps (update-Updates p test change db out e) h) h

  create-Unique :
      (id : Text) (new : NewJob) (now : ℕ) (db : Db p) (out : Job p × Db p)
      → Jobs.create_job p id new now db ≡ ok out
      → Unique db.jobs
      → Unique out.1.jobs
  unfolding Jobs.create_job
  create-Unique id new now db out h u =
      let (row, e, h₁) = bind_passed (Jobs.new_row p id new now) _ h in
      let (free, made) = not_taken p (find_row p id db.jobs) _ out h₁ in
      subst (λ (o : Job p × Db p). Unique o.1.jobs) (ok-injective _ out made)
        (append-Unique row db.jobs
          (subst (λ i. find_row p i db.jobs ≡ none) (sym (id-new_row p id new now row e)) free) u)

  saved-Unique :
      (settings : Settings) (db : Db p)
      → Unique db.jobs
      → Unique (saved p db (Jobs.save_settings p settings db)).jobs
  unfolding Jobs.save_settings
  saved-Unique settings db u = elim (Option-cases (p.settings_to_json settings)) [
    | inl e ↦ rw e u
    | inr (blob, e) ↦ rw e u
  ]

  exec-Unique : (c : Command p) (db : Db p) → Unique db.jobs → Unique (exec p c db).jobs
  unfolding exec Jobs.set_output_path Jobs.set_render_options Jobs.requeue Jobs.delete_job
  exec-Unique (guarded c) db h =
      behind-Unique db (call p c db)
        (λ out e.
          let g = call-Guards p c db out e in
          Updates-Unique g.test g.change g.guard.keeps g.updates h)
        h
  exec-Unique (set_output_path id path now) db h =
      update-Unique (Jobs.has_id p id) (Jobs.write_output_path p id path now)
        (λ r r' e. (path-keeps p id path now r r' e).0) db h
  exec-Unique (set_render_options id format layout now) db h =
      update-Unique (Jobs.has_id p id) (Jobs.write_render_options p format layout now)
        (options-id p format layout now) db h
  exec-Unique (requeue_job id now) db h =
      update-Unique (Jobs.has_id p id) (Jobs.write_requeued p id now) (requeued-id p id now) db h
  exec-Unique (delete_job id) db h = retain-Unique _ db.jobs h
  exec-Unique (create_job id new now) db h =
      behind-Unique db (Jobs.create_job p id new now db)
        (λ out e. create-Unique id new now db out e h) h
  exec-Unique (save_settings settings) db h = saved-Unique settings db h

  -- Whatever writing calls the program makes, no two jobs ever have one id, if none had at first.
  pub exec_all-Unique :
      (cs : List (Command p)) (db : Db p) → Unique db.jobs → Unique (exec_all p cs db).jobs
  unfolding exec_all
  exec_all-Unique [] db h = h
  exec_all-Unique (c ∷ cs) db h = exec_all-Unique cs (exec p c db) (exec-Unique c db h)
