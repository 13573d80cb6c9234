-- ===== src/Store/Jobs/Restart.antt =====
-- `reset_interrupted`: what a restart leaves of the jobs that were running.
use ryu_subtitles.Prelude.{
  ℕ, suc, ◌≡◌, refl, subst, Bool, false, Option, none, List, [], ◌∷◌, All, All_of_forall,
  Bool-cases, inl, inr, Result, ok, bind_passed, ok-injective,
}
use ryu_subtitles.Text.{Text, codes, text_eq, contains_text}
use ryu_subtitles.Store.Model.{Platform, Row, Db, StoreError}
use ryu_subtitles.Store.Rows.{update_rows, seal_opt}
use ryu_subtitles.Store.Jobs
use ryu_subtitles.Store.Jobs.Updates.{update-Updates, Updates-All}

module _ (p : Platform) where
  -- A change that never fails makes a statement that never fails.
  pub update_rows_total :
      (test : Row p → Bool) (change : Row p → Result StoreError (Row p))
      → ((r : Row p) → (r' : Row p) × (change r ≡ ok r'))
      → (rs : List (Row p)) → (out : ℕ × List (Row p)) × (update_rows p test change rs ≡ ok out)
  unfolding update_rows
  update_rows_total test change f [] = ((0, []), refl)
  update_rows_total test change f (r ∷ rs) =
      let (out, e) = update_rows_total test change f rs in
      let (r', c) = f r in
      elim (Bool-cases (test r)) [
        | inl t ↦ ((suc out.0, r' ∷ out.1), rw (e, t, c) refl)
        | inr t ↦ ((out.0, r ∷ out.1), rw (e, t) refl)
      ]

  interrupted_not_running :
      (error : Option Text) (now : ℕ) (r r' : Row p)
      → Jobs.write_interrupted p error now r ≡ ok r'
      → Jobs.is_running p r' ≡ false
  unfolding Jobs.write_interrupted Jobs.is_running contains_text text_eq
  interrupted_not_running error now r r' h =
      let (sealed, _, f) = bind_passed (seal_opt p (codes "jobs.error") r.id error) _ h in
      subst (λ x. Jobs.is_running p x ≡ false) (ok-injective _ r' f) refl

  -- After a restart no job is running.
  none_running :
      (now : ℕ) (db : Db p) (out : ℕ × Db p)
      → Jobs.reset_interrupted p now db ≡ ok out
      → All (λ r. Jobs.is_running p r ≡ false) out.1.jobs
  unfolding Jobs.reset_interrupted
  none_running now db out h =
      Updates-All p (Jobs.is_running p) _ (λ r. Unit {0}) (λ r. Jobs.is_running p r ≡ false)
        (λ r r' _ t c. interrupted_not_running _ now r r' c) (λ r _ t. t)
        (update-Updates p _ _ db out h) (All_of_forall (λ r. tt) db.jobs)

  -- On a store that refuses writes the restart does not fail, and no job is running after it.
  pub reset_interrupted-total :
      (now : ℕ) (db : Db p)
      → p.writable ≡ false
      → (out : ℕ × Db p) × (Jobs.reset_interrupted p now db ≡ ok out)
        × All (λ r. Jobs.is_running p r ≡ false) out.1.jobs
  unfolding Jobs.reset_interrupted Jobs.update Jobs.write_interrupted seal_opt
  reset_interrupted-total now db closed =
      let (rows, e) =
        update_rows_total (Jobs.is_running p) (Jobs.write_interrupted p none now) (λ r. (_, refl))
          db.jobs in
      let run : Jobs.reset_interrupted p now db ≡ ok (rows.0, record db { jobs = rows.1 }) =
        rw (closed, e) refl in
      ((rows.0, record db { jobs = rows.1 }), run, none_running now db _ run)
