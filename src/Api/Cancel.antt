-- ===== src/Api/Cancel.antt =====
-- `cancel_job` of backend/src/api.rs while other tasks work on the database.
use ryu_subtitles.Prelude.{
  ℕ, ◌≡◌, refl, sym, ap, subst, ◌∙◌, Bool, true, false, not, some, List, [], ◌∷◌, arith, ok, All,
  if◌then◌else◌, Bool-cases, inl, inr,
}
use ryu_subtitles.Text.{Text, codes, text_eq}
use ryu_subtitles.Store.Model.{Platform, Row, Job, Db, is_terminal}
use ryu_subtitles.Store.Rows.{find_row, is_active}
use ryu_subtitles.Store.Jobs as Store
use ryu_subtitles.Store.Jobs.Guarded.{Guarded, cancel, call, after, run_calls}
use ryu_subtitles.Store.Jobs.Closed.{Closed, ends-Closed, after-Closed}
use ryu_subtitles.Store.Queue
use ryu_subtitles.Store.Queue.Readable.{get_job_found}
use ryu_subtitles.Store.Queue.Kept.{is_active-row_to_job}
use ryu_subtitles.Text.Equal.{text_eq_refl}
use ryu_subtitles.Api.Model.{Answer, Site, answered, reply, or_500, or_404}
use ryu_subtitles.Api.Jobs
use ryu_subtitles.Api.Early.{bind_holds, or_500_ok, or_404_ok, or_500_err, or_404_err}

module _ (p : Platform) where
  -- The job that is found under the id has ended.
  pub record HasEnded (id : Text) (db : Db p) : Type 0 where
    pub ended : (r : Row p) → find_row p id db.jobs ≡ some r → is_active p r ≡ false

  pub Closed-run_calls :
      (id : Text) (cs : List (Guarded p)) (db : Db p)
      → Closed p id db
      → Closed p id (run_calls p cs db)
  unfolding run_calls
  Closed-run_calls id [] db h = h
  Closed-run_calls id (c ∷ cs) db h =
      Closed-run_calls id cs (after p db (call p c db)) (after-Closed p id c db h)

  found_inactive :
      (id : Text) (rows : List (Row p)) (r : Row p)
      → All (λ r. Store.is_active_id p id r ≡ false) rows
      → find_row p id rows ≡ some r
      → is_active p r ≡ false
  unfolding find_row Store.is_active_id Store.has_id
  found_inactive id [] r h e = cc
  found_inactive id (x ∷ rows) r (q, h) e = elim (Bool-cases (text_eq x.id id)) [
    | inl t ↦ ground arith
    | inr t ↦ found_inactive id rows r h (rw t at e)
  ]

  Closed-HasEnded : (id : Text) (db : Db p) → Closed p id db → HasEnded id db
  Closed-HasEnded id db h = record { ended = λ r e. found_inactive id db.jobs r h e }

  read_ended :
      (id : Text) (db : Db p) (j : Job p)
      → Queue.get_job p id db ≡ ok (some j)
      → is_terminal j.status ≡ true
      → HasEnded id db
  read_ended id db j h t =
      let (r, here, reads) = get_job_found p id db j h in
      record {
        ended = λ r' e.
            let same : r ≡ r' = cc in
            subst (λ x. is_active p x ≡ false) same (is_active-row_to_job p r j reads ∙ ap not t);
      }

  module _ (s : Site p) (script : ℕ → List (Guarded p))
      (guarded : (k : ℕ) (db : Db p) → s.meddle k db ≡ run_calls p (script k) db) where
    -- Whether the answer is a success after which the job has ended.
    record Stops (id : Text) (a : Answer p) : Type 0 where
      stops : a.response.status ≡ 200 → HasEnded id a.db

    canceled-Stops : (id : Text) (db : Db p) → Closed p id db → Stops id (Jobs.canceled p s id db)
    unfolding Jobs.canceled reply
    canceled-Stops id db h = record {
      stops = λ q.
          Closed-HasEnded id (s.meddle 2 db)
            (subst (Closed p id) (sym (guarded 2 db)) (Closed-run_calls id (script 2) db h));
    }

    stop_job-Stops : (id : Text) (db : Db p) → Stops id (Jobs.stop_job p s id db)
    unfolding Jobs.stop_job
    stop_job-Stops id db =
        bind_holds p (Stops id) db (or_500 p s _) _
          (λ done e.
            unfold answered in
            canceled-Stops id done.1 (
              ends-Closed p id (cancel id (codes "Cancelled.") (s.now 1)) db done (text_eq_refl id)
                (unfold call in or_500_ok p s _ done e)))
          (λ r e.
            unfold reply in record { stops = λ q. absurd (omega (arith, or_500_err p s _ r e)) })

    terminal-Stops :
        (id : Text) (db : Db p) (j : Job p)
        → Queue.get_job p id db ≡ ok (some j)
        → (b : Bool) → is_terminal j.status ≡ b
        → Stops id (
            answered p db (
              if b
              then ok (reply p (Jobs.show_job p s j) db)
              else ok (Jobs.stop_job p s id (s.meddle 1 db))))
    unfolding answered reply
    terminal-Stops id db j h true t = record { stops = λ q. read_ended id db j h t }
    terminal-Stops id db j h false t = stop_job-Stops id (s.meddle 1 db)

    cancel_job-Stops : (id : Text) (db : Db p) → Stops id (Jobs.cancel_job p s id db)
    unfolding Jobs.cancel_job
    cancel_job-Stops id db =
        let db₀ = s.meddle 0 db in
        bind_holds p (Stops id) db₀ (or_404 p s (Queue.get_job p id db₀)) _
          (λ j e. terminal-Stops id db₀ j (or_404_ok p s _ j e) (is_terminal j.status) refl)
          (λ r e.
            unfold reply in record { stops = λ q. absurd (omega (arith, or_404_err p s _ r e)) })

    -- Where the other tasks make guarded calls only, whatever they are and whenever they come, a
    -- request to cancel that is answered with 200 leaves no active job under its id.
    pub cancel_job-ends :
        (id : Text) (db : Db p) (r : Row p)
        → (Jobs.cancel_job p s id db).response.status ≡ 200
        → find_row p id (Jobs.cancel_job p s id db).db.jobs ≡ some r
        → is_active p r ≡ false
    cancel_job-ends id db r h e = ((cancel_job-Stops id db).stops h).ended r e
