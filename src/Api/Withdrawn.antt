-- ===== src/Api/Withdrawn.antt =====
-- `cancel_job` of backend/src/api.rs against `run_job` of backend/src/engine.rs.
use ryu_subtitles.Prelude.{
  ℕ, ◌≡◌, refl, sym, subst, false, none, some, inl, inr, List, [], ◌∷◌, arith, All, Bool-cases,
}
use ryu_subtitles.Text.{Text, text_eq}
use ryu_subtitles.Text.Equal.{text_eq→eq}
use ryu_subtitles.Store.Model.{Platform, Row, Job, Db}
use ryu_subtitles.Store.Rows.{find_row, is_active}
use ryu_subtitles.Store.Jobs as Store
use ryu_subtitles.Store.Jobs.Guarded.{Guarded, run_calls}
use ryu_subtitles.Store.Jobs.Closed.{Closed}
use ryu_subtitles.Store.Machine.Unique.{Unique}
use ryu_subtitles.Engine.Model.{World, Around, found}
use ryu_subtitles.Engine.Run.{run_job, prepare}
use ryu_subtitles.Engine.Commit.{run_job-ended}
use ryu_subtitles.Api.Model.{Site}
use ryu_subtitles.Api.Jobs
use ryu_subtitles.Api.Cancel.{cancel_job-ends, Closed-run_calls}

module _ (p : Platform) where
  absent_inactive :
      (id : Text) (rows : List (Row p))
      → find_row p id rows ≡ none
      → All (λ r. Store.is_active_id p id r ≡ false) rows
  unfolding find_row Store.is_active_id Store.has_id
  absent_inactive id [] h = tt
  absent_inactive id (r ∷ rows) h = elim (Bool-cases (text_eq r.id id)) [
    | inl e ↦ cc (rw e at h)
    | inr e ↦ (ground arith, absent_inactive id rows (rw e at h))
  ]

  -- Where no two rows have one id, the row that is found stands for all.
  Unique-inactive :
      (id : Text) (rows : List (Row p))
      → Unique p rows
      → ((r : Row p) → find_row p id rows ≡ some r → is_active p r ≡ false)
      → All (λ r. Store.is_active_id p id r ≡ false) rows
  unfolding find_row Store.is_active_id Store.has_id
  Unique-inactive id [] u h = tt
  Unique-inactive id (r ∷ rows) (alone, u) h = elim (Bool-cases (text_eq r.id id)) [
    | inl e ↦
        let inactive : is_active p r ≡ false = h r (rw e refl) in
        (
          ground arith,
          absent_inactive id rows
              (subst (λ i. find_row p i rows ≡ none) (text_eq→eq r.id id e) alone),
        )
    | inr e ↦ (ground arith, Unique-inactive id rows u (λ q f. h q (rw e f)))
  ]

  -- A run whose job was canceled by a request that was answered with 200 publishes nothing: no file
  -- beside the video and no event. While the request is handled, and from then to the commit, there
  -- are guarded calls only, whatever they are; no two jobs have one id.
  pub run_job-withdrawn :
      (s : Site p) (script : ℕ → List (Guarded p))
      (guarded : (k : ℕ) (db : Db p) → s.meddle k db ≡ run_calls p (script k) db) (a : Around p)
      (job : Job p) (w : World p) (db : Db p) (later : List (Guarded p))
      → (Jobs.cancel_job p s job.id db).response.status ≡ 200
      → Unique p (Jobs.cancel_job p s job.id db).db.jobs
      → found a (prepare a job w).1 ≡ run_calls p later (Jobs.cancel_job p s job.id db).db
      → (run_job a job w).1.log ≡ w.log
  run_job-withdrawn s script guarded a job w db later h u e =
      let after = (Jobs.cancel_job p s job.id db).db in
      run_job-ended a job w (
        subst (Closed p job.id) (sym e) (
          Closed-run_calls p job.id later after (
            Unique-inactive job.id after.jobs u
              (λ r f. cancel_job-ends p s script guarded job.id db r h f))))
