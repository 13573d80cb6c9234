-- ===== src/Store/Jobs/Closed.antt =====
-- Jobs that have ended, under the guarded writes of backend/src/store.rs.
use ryu_subtitles.Prelude.{
  ℕ, ◌≡◌, refl, ap, subst, Bool, true, false, not, ◌&&◌, Option, none, some, List, [], ◌∷◌, arith,
  Result, ok, err, All, All_of_forall,
}
use ryu_subtitles.Text.{Text, codes, text_eq, contains_text}
use ryu_subtitles.Text.Equal.{text_eq→eq}
use ryu_subtitles.Store.Model.{
  Platform, Row, Db, StoreError, Status, as_str, is_terminal, completed, failed, canceled, queued,
  transcribing, translating,
}
use ryu_subtitles.Store.Rows.{is_active, seal_opt, seal_text}
use ryu_subtitles.Store.Jobs
use ryu_subtitles.Store.Jobs.Updates.{changed-Updates, Updates-All}
use ryu_subtitles.Store.Jobs.Guarded.{
  Guarded, status, cancel, complete, progress, cue_list, restart, call, after,
}
use ryu_subtitles.Store.Jobs.Frozen.{Guards, call-Guards}

module _ (p : Platform) where
  -- No job of this id is active.
  abbrev pub Closed : Text → Db p → Type 0
  Closed id db = All (λ r. Jobs.is_active_id p id r ≡ false) db.jobs

  -- A call that would end the job `id`.
  abbrev pub ends : Text → Guarded p → Bool
  ends id (status id' s error ended now) = text_eq id' id && is_terminal s
  ends id (cancel id' reason now) = text_eq id' id
  ends id (complete id' now) = text_eq id' id
  ends id _ = false

  terminal_is_closed :
      (s : Status)
      → is_terminal s ≡ true
      → not (contains_text (as_str s) (codes "completed" ∷ codes "failed" ∷ codes "canceled" ∷ []))
        ≡ false
  unfolding is_terminal as_str contains_text text_eq
  terminal_is_closed completed h = refl
  terminal_is_closed failed h = refl
  terminal_is_closed canceled h = refl
  terminal_is_closed queued h = cc
  terminal_is_closed transcribing h = cc
  terminal_is_closed translating h = cc

  terminal_names : List Text
  terminal_names = codes "completed" ∷ codes "failed" ∷ codes "canceled" ∷ []

  closed_by_status :
      (id : Text) (r : Row p) (s : Text)
      → r.status ≡ s
      → not (contains_text s terminal_names) ≡ false
      → Jobs.is_active_id p id r ≡ false
  unfolding Jobs.is_active_id is_active terminal_names
  closed_by_status id r s e k = ground (arith, ap (λ t. not (contains_text t terminal_names)) e)

  closed_by_change :
      (id : Text) (r r' : Row p)
      → Jobs.is_active_id p id r ≡ false
      → is_active p r ≡ true
      → r'.id ≡ r.id
      → Jobs.is_active_id p id r' ≡ false
  unfolding Jobs.is_active_id Jobs.has_id
  closed_by_change id r r' q t e = ground (arith, ap (λ i. text_eq i id) e)

  -- A guarded statement opens no job.
  Guards-Closed : (id : Text) (db db' : Db p) → Guards p db db' → Closed id db → Closed id db'
  Guards-Closed id db db' g =
      Updates-All p g.test g.change (λ r. Jobs.is_active_id p id r ≡ false)
        (λ r. Jobs.is_active_id p id r ≡ false)
        (λ r r' q t c. closed_by_change id r r' q (g.guard.active r t) (g.guard.keeps r r' c))
        (λ r q t. q) g.updates

  pub after-Closed :
      (id : Text) (c : Guarded p) (db : Db p) → Closed id db → Closed id (after p db (call p c db))
  after-Closed id c db h = go (call p c db) refl
    where
      go : (o : Result StoreError (Bool × Db p)) → call p c db ≡ o → Closed id (after p db o)
      go (err e) eq = h
      go (ok out) eq = Guards-Closed id db out.1 (call-Guards p c db out eq) h

  -- A statement that writes a terminal status to the active jobs of an id leaves none of them.
  changed-Closed :
      (id : Text) (s : Text) (change : Row p → Result StoreError (Row p)) (db : Db p)
      (out : Bool × Db p)
      → ((r r' : Row p) → change r ≡ ok r' → r'.status ≡ s)
      → not (contains_text s terminal_names) ≡ false
      → Jobs.changed p (Jobs.is_active_id p id) change db ≡ ok out
      → Closed id out.1
  changed-Closed id s change db out writes k h =
      let (n, u, e) = changed-Updates p (Jobs.is_active_id p id) change db out h in
      Updates-All p (Jobs.is_active_id p id) change (λ r. r.id ≡ r.id)
        (λ r. Jobs.is_active_id p id r ≡ false)
        (λ r r' q t c. closed_by_status id r' s (writes r r' c) k) (λ r q t. t) u
        (All_of_forall (λ r. refl) db.jobs)

  pub status-writes :
      (id : Text) (s : Status) (error : Option Text) (ended now : ℕ) (r r' : Row p)
      → Jobs.write_status p id s error ended now r ≡ ok r'
      → r'.status ≡ as_str s
  unfolding Jobs.write_status seal_opt
  status-writes id s none ended now r r' h = ground arith
  status-writes id s (some e) ended now r r' h = ground arith

  pub canceled-writes :
      (id reason : Text) (now : ℕ) (r r' : Row p)
      → Jobs.write_canceled p id reason now r ≡ ok r'
      → r'.status ≡ codes "canceled"
  unfolding Jobs.write_canceled seal_text
  canceled-writes id reason now r r' h = ground arith

  pub completed-writes :
      (now : ℕ) (r r' : Row p)
      → Jobs.write_completed p now r ≡ ok r'
      → r'.status ≡ codes "completed"
  unfolding Jobs.write_completed
  completed-writes now r r' h = ground arith

  canceled_is_terminal : not (contains_text (codes "canceled") terminal_names) ≡ false
  unfolding terminal_names contains_text text_eq
  canceled_is_terminal = refl

  completed_is_terminal : not (contains_text (codes "completed") terminal_names) ≡ false
  unfolding terminal_names contains_text text_eq
  completed_is_terminal = refl

  and_left : (a b : Bool) → a && b ≡ true → a ≡ true
  and_left a b h = ground arith

  and_right : (a b : Bool) → a && b ≡ true → b ≡ true
  and_right a b h = ground arith

  -- A call that would end the job and does not fail leaves no active job of the id.
  pub ends-Closed :
      (id : Text) (c : Guarded p) (db : Db p) (out : Bool × Db p)
      → ends id c ≡ true
      → call p c db ≡ ok out
      → Closed id out.1
  unfolding call Jobs.set_status_if_active Jobs.cancel_if_active Jobs.complete_if_active
      terminal_names
  ends-Closed id (status id' s error ended now) db out t h =
      subst (λ i. Closed i out.1) (text_eq→eq id' id (and_left (text_eq id' id) (is_terminal s) t))
        (changed-Closed id' (as_str s) _ db out (status-writes id' s error ended now)
          (terminal_is_closed s (and_right (text_eq id' id) (is_terminal s) t)) h)
  ends-Closed id (cancel id' reason now) db out t h =
      subst (λ i. Closed i out.1) (text_eq→eq id' id t)
        (changed-Closed id' (codes "canceled") _ db out (canceled-writes id' reason now)
          canceled_is_terminal h)
  ends-Closed id (complete id' now) db out t h =
      subst (λ i. Closed i out.1) (text_eq→eq id' id t)
        (changed-Closed id' (codes "completed") _ db out (completed-writes now)
          completed_is_terminal h)
  ends-Closed id (progress id' value stage duration_ms now) db out t h = cc
  ends-Closed id (cue_list id' cues now) db out t h = cc
  ends-Closed id (restart now) db out t h = cc
