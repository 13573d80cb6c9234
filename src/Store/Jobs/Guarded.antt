-- ===== src/Store/Jobs/Guarded.antt =====
-- The writes that are guarded by the job's status: those of the worker, the cancel request, and
-- the reset at boot.
use ryu_subtitles.Prelude.{
  ℕ, ◌≡◌, refl, Bool, true, false, not, Option, none, some, inl, inr, List, [], ◌∷◌, arith, Result,
  ok, err, ◌>>=◌, Bool-cases,
}
use ryu_subtitles.Text.{Text, codes, text_eq, contains_text}
use ryu_subtitles.Text.Equal.{text_eq→eq}
use ryu_subtitles.Cues.Model.{Cue}
use ryu_subtitles.Store.Model.{Platform, Row, Db, StoreError, Status}
use ryu_subtitles.Store.Rows.{is_active, seal_opt, seal_text}
use ryu_subtitles.Store.Jobs

module _ (p : Platform) where
  -- A guarded write touches active jobs only, and keeps their ids.
  pub record IsGuarded (test : Row p → Bool) (change : Row p → Result StoreError (Row p))
      : Type 0 where
    pub active : (r : Row p) → test r ≡ true → is_active p r ≡ true
    pub keeps : (r r' : Row p) → change r ≡ ok r' → r'.id ≡ r.id

  is_active_id-active :
      (id : Text) (r : Row p) → Jobs.is_active_id p id r ≡ true → is_active p r ≡ true
  unfolding Jobs.is_active_id
  is_active_id-active id r h = ground arith

  active_of_status :
      (r : Row p) (s : Text)
      → text_eq r.status s ≡ true
      → not (contains_text s (codes "completed" ∷ codes "failed" ∷ codes "canceled" ∷ [])) ≡ true
      → is_active p r ≡ true
  unfolding is_active
  active_of_status r s e k = rw (text_eq→eq r.status s e) k

  running_is_active : (r : Row p) → Jobs.is_running p r ≡ true → is_active p r ≡ true
  unfolding Jobs.is_running contains_text
  running_is_active r h = elim (Bool-cases (text_eq r.status (codes "transcribing"))) [
    | inl e ↦ active_of_status r (codes "transcribing") e (unfold contains_text text_eq in refl)
    | inr e ↦
        active_of_status r (codes "translating") (ground arith)
          (unfold contains_text text_eq in refl)
  ]

  pub status-IsGuarded :
      (id : Text) (status : Status) (error : Option Text) (ended now : ℕ)
      → IsGuarded (Jobs.is_active_id p id) (Jobs.write_status p id status error ended now)
  unfolding Jobs.write_status seal_opt
  status-IsGuarded id status none ended now = record {
    active = is_active_id-active id;
    keeps = λ r r' h. ground arith;
  }
  status-IsGuarded id status (some e) ended now = record {
    active = is_active_id-active id;
    keeps = λ r r' h. ground arith;
  }

  pub canceled-IsGuarded :
      (id reason : Text) (now : ℕ)
      → IsGuarded (Jobs.is_active_id p id) (Jobs.write_canceled p id reason now)
  unfolding Jobs.write_canceled seal_text
  canceled-IsGuarded id reason now = record {
    active = is_active_id-active id;
    keeps = λ r r' h. ground arith;
  }

  pub completed-IsGuarded :
      (id : Text) (now : ℕ) → IsGuarded (Jobs.is_active_id p id) (Jobs.write_completed p now)
  unfolding Jobs.write_completed
  completed-IsGuarded id now = record {
    active = is_active_id-active id;
    keeps = λ r r' h. ground arith;
  }

  pub progress-IsGuarded :
      (id : Text) (progress : p.Real) (stage : Text) (duration_ms : Option ℕ) (now : ℕ)
      → IsGuarded (Jobs.is_active_id p id) (Jobs.write_progress p progress stage duration_ms now)
  unfolding Jobs.write_progress
  progress-IsGuarded id progress stage duration_ms now = record {
    active = is_active_id-active id;
    keeps = λ r r' h. ground arith;
  }

  pub cues-IsGuarded :
      (id json : Text) (cues : List Cue) (now : ℕ)
      → IsGuarded (Jobs.is_active_id p id) (Jobs.write_cues p id json cues now)
  unfolding Jobs.write_cues seal_text
  cues-IsGuarded id json cues now = record {
    active = is_active_id-active id;
    keeps = λ r r' h. ground arith;
  }

  pub interrupted-IsGuarded :
      (error : Option Text) (now : ℕ)
      → IsGuarded (Jobs.is_running p) (Jobs.write_interrupted p error now)
  unfolding Jobs.write_interrupted seal_opt
  interrupted-IsGuarded none now = record {
    active = running_is_active;
    keeps = λ r r' h. ground arith;
  }
  interrupted-IsGuarded (some e) now = record {
    active = running_is_active;
    keeps = λ r r' h. ground arith;
  }

  -- The guarded writes as data, for sequences of them by whoever comes first.
  pub data Guarded : Type 0 where
    status : Text → Status → Option Text → ℕ → ℕ → Guarded
    cancel : Text → Text → ℕ → Guarded
    complete : Text → ℕ → Guarded
    progress : Text → p.Real → Text → Option ℕ → ℕ → Guarded
    cue_list : Text → List Cue → ℕ → Guarded
    restart : ℕ → Guarded

  -- A call of the store; the flag is the caller's answer, false where the method returns none.
  unfoldable pub call : Guarded → Db p → Result StoreError (Bool × Db p)
  call (status id s error ended now) db = Jobs.set_status_if_active p id s error ended now db
  call (cancel id reason now) db = Jobs.cancel_if_active p id reason now db
  call (complete id now) db = Jobs.complete_if_active p id now db
  call (progress id value stage duration_ms now) db = do
    done ← Jobs.set_progress p id value stage duration_ms now db
    ok (false, done.1)
  call (cue_list id cues now) db = do done ← Jobs.set_cues p id cues now db; ok (false, done.1)
  call (restart now) db = do done ← Jobs.reset_interrupted p now db; ok (false, done.1)

  -- The database after a call: a statement that fails is undone.
  abbrev pub after : Db p → Result StoreError (Bool × Db p) → Db p
  after db (ok out) = out.1
  after db (err e) = db

  unfoldable pub run_calls : List Guarded → Db p → Db p
  run_calls [] db = db
  run_calls (c ∷ cs) db = run_calls cs (after db (call c db))
