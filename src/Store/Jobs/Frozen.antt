-- ===== src/Store/Jobs/Frozen.antt =====
-- The row of a job that has ended, under the guarded writes of backend/src/store.rs.
use ryu_subtitles.Prelude.{
  ℕ, ◌≡◌, refl, subst, Bool, false, some, inl, inr, List, [], ◌∷◌, Result, ok, err, ◌>>=◌,
  bind_passed, ok-injective, ok_or, Bool-cases,
}
use ryu_subtitles.Text.{Text}
use ryu_subtitles.Store.Model.{Platform, Row, Db, StoreError, not_json}
use ryu_subtitles.Store.Rows.{is_active, find_row}
use ryu_subtitles.Store.Jobs
use ryu_subtitles.Store.Jobs.Updates.{Updates, update-Updates, changed-Updates, find_row_miss}
use ryu_subtitles.Store.Jobs.Guarded.{
  IsGuarded, Guarded, status, cancel, complete, progress, cue_list, restart, call, after, run_calls,
  status-IsGuarded, canceled-IsGuarded, completed-IsGuarded, progress-IsGuarded, cues-IsGuarded,
  interrupted-IsGuarded,
}

module _ (p : Platform) where
  -- The guarded statement that leads from one database to another.
  pub record Guards (db db' : Db p) : Type 0 where
    pub test : Row p → Bool
    pub change : Row p → Result StoreError (Row p)
    pub guard : IsGuarded p test change
    pub count : ℕ
    pub updates : Updates p test change db.jobs count db'.jobs

  changed-Guards :
      {test : Row p → Bool} {change : Row p → Result StoreError (Row p)} (db : Db p)
      (out : Bool × Db p)
      → IsGuarded p test change
      → Jobs.changed p test change db ≡ ok out
      → Guards db out.1
  changed-Guards {test} {change} db out g h =
      let (n, u, e) = changed-Updates p test change db out h in
      record { test = test; change = change; guard = g; count = n; updates = u }

  update-Guards :
      {test : Row p → Bool} {change : Row p → Result StoreError (Row p)} (db : Db p)
      (done : ℕ × Db p)
      → IsGuarded p test change
      → Jobs.update p test change db ≡ ok done
      → Guards db done.1
  update-Guards {test} {change} db done g h = record {
    test = test;
    change = change;
    guard = g;
    count = done.0;
    updates = update-Updates p test change db done h;
  }

  -- The same behind a call that drops the count.
  silent-Guards :
      (m : Result StoreError (ℕ × Db p)) (db : Db p) (out : Bool × Db p)
      → ((done : ℕ × Db p) → m ≡ ok done → Guards db done.1)
      → (m >>= λ (done : ℕ × Db p). ok (false, done.1)) ≡ ok out
      → Guards db out.1
  silent-Guards m db out g h =
      let (done, e, f) = bind_passed m _ h in
      subst (λ (o : Bool × Db p). Guards db o.1) (ok-injective (false, done.1) out f) (g done e)

  -- Every guarded call that succeeds is a guarded statement.
  pub call-Guards :
      (c : Guarded p) (db : Db p) (out : Bool × Db p) → call p c db ≡ ok out → Guards db out.1
  unfolding call Jobs.set_status_if_active Jobs.cancel_if_active Jobs.complete_if_active
      Jobs.set_progress Jobs.set_cues Jobs.reset_interrupted
  call-Guards (status id s error ended now) db out h =
      changed-Guards db out (status-IsGuarded p id s error ended now) h
  call-Guards (cancel id reason now) db out h =
      changed-Guards db out (canceled-IsGuarded p id reason now) h
  call-Guards (complete id now) db out h = changed-Guards db out (completed-IsGuarded p id now) h
  call-Guards (progress id value stage duration_ms now) db out h =
      silent-Guards _ db out
        (λ done. update-Guards db done (progress-IsGuarded p id value stage duration_ms now)) h
  call-Guards (cue_list id cues now) db out h =
      silent-Guards (Jobs.set_cues p id cues now db) db out
        (λ done e.
          let (json, j, g) = bind_passed (ok_or (p.cues_to_json cues) not_json) _ e in
          update-Guards db done (cues-IsGuarded p id json cues now) g)
        h
  call-Guards (restart now) db out h =
      silent-Guards _ db out (λ done. update-Guards db done (interrupted-IsGuarded p _ now)) h

  Guards-frozen :
      {db db' : Db p} (id : Text) (r : Row p)
      → Guards db db'
      → is_active p r ≡ false
      → find_row p id db.jobs ≡ some r
      → find_row p id db'.jobs ≡ some r
  Guards-frozen id r g ended h = elim (Bool-cases (g.test r)) [
    | inl t ↦ cc (g.guard.active r t)
    | inr t ↦ find_row_miss p g.test g.change g.guard.keeps id r g.updates t h
  ]

  after-frozen :
      (c : Guarded p) (db : Db p) (id : Text) (r : Row p)
      → is_active p r ≡ false
      → find_row p id db.jobs ≡ some r
      → find_row p id (after p db (call p c db)).jobs ≡ some r
  after-frozen c db id r ended h = go (call p c db) refl
    where
      go :
          (o : Result StoreError (Bool × Db p))
          → call p c db ≡ o
          → find_row p id (after p db o).jobs ≡ some r
      go (err e) eq = h
      go (ok out) eq = Guards-frozen id r (call-Guards c db out eq) ended h

  -- Whatever guarded calls come, in whatever order and for whatever jobs, a job that has ended
  -- keeps its row as it is.
  pub ended_is_final :
      (cs : List (Guarded p)) (db : Db p) (id : Text) (r : Row p)
      → find_row p id db.jobs ≡ some r
      → is_active p r ≡ false
      → find_row p id (run_calls p cs db).jobs ≡ some r
  unfolding run_calls
  ended_is_final [] db id r h ended = h
  ended_is_final (c ∷ cs) db id r h ended =
      ended_is_final cs (after p db (call p c db)) id r (after-frozen c db id r ended h) ended
