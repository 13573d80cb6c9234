-- ===== src/Store/Jobs/Outcome.antt =====
-- The answers of the guarded writes of backend/src/store.rs that end a job.
use ryu_subtitles.Prelude.{
  ℕ, suc, ◌≤◌, ◌≡◌, refl, sym, ap, subst, ◌∙◌, Bool, true, false, ◌&&◌, inl, inr, List, [], ◌∷◌,
  arith, Result, ok, err, Bool-cases, ltb, if◌then◌else◌,
}
use ryu_subtitles.Text.{Text}
use ryu_subtitles.Text.Equal.{text_eq→eq}
use ryu_subtitles.Store.Model.{Platform, Row, Db, StoreError}
use ryu_subtitles.Store.Jobs
use ryu_subtitles.Store.Jobs.Updates.{changed-Updates, Updates-zero}
use ryu_subtitles.Store.Jobs.Guarded.{
  Guarded, status, cancel, complete, progress, cue_list, restart, call, after,
}
use ryu_subtitles.Store.Jobs.Closed.{Closed, ends, ends-Closed, after-Closed}

module _ (p : Platform) where
  -- The caller's answer; a failure is no success.
  abbrev pub answer : Result StoreError (Bool × Db p) → Bool
  answer (ok out) = out.0
  answer (err e) = false

  -- How many of the calls that would end the job are told that they did.
  pub winners : Text → List (Guarded p) → Db p → ℕ
  winners id [] db = 0
  winners id (c ∷ cs) db =
      let rest = winners id cs (after p db (call p c db)) in
      if ends p id c && answer (call p c db) then suc rest else rest

  -- Where no job of the id is active, the guarded statement answers no.
  pub changed-answer :
      (id : Text) (change : Row p → Result StoreError (Row p)) (db : Db p) (out : Bool × Db p)
      → Closed p id db
      → Jobs.changed p (Jobs.is_active_id p id) change db ≡ ok out
      → out.0 ≡ false
  changed-answer id change db out closed h =
      let (n, u, e) = changed-Updates p (Jobs.is_active_id p id) change db out h in
      let z = Updates-zero p (Jobs.is_active_id p id) change db.jobs out.1.jobs closed n u in
      e ∙ ap (ltb 0) z

  answer_no :
      (id : Text) (c : Guarded p) (db : Db p) (out : Bool × Db p)
      → Closed p id db
      → ends p id c ≡ true
      → call p c db ≡ ok out
      → out.0 ≡ false
  unfolding call Jobs.set_status_if_active Jobs.cancel_if_active Jobs.complete_if_active
  answer_no id (status id' s error ended now) db out closed t h =
      changed-answer id' _ db out
        (subst (λ i. Closed p i db) (sym (text_eq→eq id' id (ground arith))) closed) h
  answer_no id (cancel id' reason now) db out closed t h =
      changed-answer id' _ db out (subst (λ i. Closed p i db) (sym (text_eq→eq id' id t)) closed) h
  answer_no id (complete id' now) db out closed t h =
      changed-answer id' _ db out (subst (λ i. Closed p i db) (sym (text_eq→eq id' id t)) closed) h
  answer_no id (progress id' value stage duration_ms now) db out closed t h = cc
  answer_no id (cue_list id' cues now) db out closed t h = cc
  answer_no id (restart now) db out closed t h = cc

  not_won :
      (id : Text) (c : Guarded p) (db : Db p)
      → Closed p id db
      → (o : Result StoreError (Bool × Db p)) → call p c db ≡ o
      → ends p id c && answer o ≡ false
  not_won id c db closed (err e) eq = ground arith
  not_won id c db closed (ok out) eq = elim (Bool-cases (ends p id c)) [
    | inl t ↦ rw t (answer_no id c db out closed t eq)
    | inr t ↦ rw t
  ]

  winners-Closed :
      (id : Text) (cs : List (Guarded p)) (db : Db p) → Closed p id db → winners id cs db ≡ 0
  unfolding winners
  winners-Closed id [] db closed = refl
  winners-Closed id (c ∷ cs) db closed =
      rw (not_won id c db closed (call p c db) refl)
        (winners-Closed id cs (after p db (call p c db)) (after-Closed p id c db closed))

  won-Closed :
      (id : Text) (c : Guarded p) (db : Db p) (o : Result StoreError (Bool × Db p))
      → call p c db ≡ o
      → ends p id c && answer o ≡ true
      → Closed p id (after p db o)
  won-Closed id c db (err e) eq h = absurd (ground arith)
  won-Closed id c db (ok out) eq h = ends-Closed p id c db out (ground arith) eq

  -- In every sequence of guarded calls, at most one of those that would end a job is told that it
  -- did: a cancellation and a completion never both succeed.
  pub one_winner : (cs : List (Guarded p)) (db : Db p) (id : Text) → winners id cs db ≤ 1
  unfolding winners
  one_winner [] db id = omega arith
  one_winner (c ∷ cs) db id =
      let db' = after p db (call p c db) in
      elim (Bool-cases (ends p id c && answer (call p c db))) [
        | inl won ↦
            rw won
              (omega (arith, winners-Closed id cs db' (won-Closed id c db (call p c db) refl won)))
        | inr lost ↦ rw lost (one_winner cs db' id)
      ]
