-- ===== src/Store/Queue/Next.antt =====
-- The order in which `next_queued` of backend/src/store.rs takes the jobs.
use ryu_subtitles.Prelude.{
  ◌≤◌, ◌≡◌, refl, subst, ◌⊎◌, inl, inr, Option, some, List, [], ◌∷◌, arith, All, All_mono,
  Bool-cases, retain, leb→le, leb_false→lt, Result, ok, err, bind_passed, ok-injective,
}
use ryu_subtitles.Text.{codes}
use ryu_subtitles.Store.Model.{
  Platform, Row, Job, Db, StoreError, unreadable, unsealable, not_json, duplicate_id,
}
use ryu_subtitles.Store.Rows.{row_to_job, opened, opened_opt}
use ryu_subtitles.Store.Queue

module _ (p : Platform) where
  -- The rows in the order of their creation.
  abbrev pub IsOrdered : List (Row p) → Type 0
  IsOrdered [] = Unit
  IsOrdered (r ∷ rs) = All (λ (s : Row p). r.created_at ≤ s.created_at) rs × IsOrdered rs

  insert_row-All :
      (P : Row p → Type 0) (r : Row p) (rs : List (Row p))
      → P r
      → All P rs
      → All P (Queue.insert_row p (Queue.oldest_first p) r rs)
  unfolding Queue.insert_row
  insert_row-All P r [] h hs = (h, tt)
  insert_row-All P r (s ∷ rs) h (q, hs) = elim (Bool-cases (Queue.oldest_first p r s)) [
    | inl t ↦ rw t (h, (q, hs))
    | inr t ↦ rw t (q, insert_row-All P r rs h hs)
  ]

  All_of_insert_row :
      (P : Row p → Type 0) (r : Row p) (rs : List (Row p))
      → All P (Queue.insert_row p (Queue.oldest_first p) r rs)
      → P r × All P rs
  unfolding Queue.insert_row
  All_of_insert_row P r [] h = h
  All_of_insert_row P r (s ∷ rs) h = elim (Bool-cases (Queue.oldest_first p r s)) [
    | inl t ↦ rw t at h
    | inr t ↦
        let h' : P s × All P (Queue.insert_row p (Queue.oldest_first p) r rs) = rw t at h in
        let (q, hs) = All_of_insert_row P r rs h'.1 in (q, (h'.0, hs))
  ]

  All_of_order_by :
      (P : Row p → Type 0) (rs : List (Row p))
      → All P (Queue.order_by p (Queue.oldest_first p) rs)
      → All P rs
  unfolding Queue.order_by
  All_of_order_by P [] h = tt
  All_of_order_by P (r ∷ rs) h =
      let (q, hs) = All_of_insert_row P r _ h in (q, All_of_order_by P rs hs)

  insert_row-IsOrdered :
      (r : Row p) (rs : List (Row p))
      → IsOrdered rs
      → IsOrdered (Queue.insert_row p (Queue.oldest_first p) r rs)
  unfolding Queue.insert_row
  insert_row-IsOrdered r [] h = (tt, tt)
  insert_row-IsOrdered r (s ∷ rs) (q, h) = elim (Bool-cases (Queue.oldest_first p r s)) [
    | inl t ↦
        let le = leb→le r.created_at s.created_at t in
        rw t ((le, All_mono (λ x l. omega arith) rs q), (q, h))
    | inr t ↦
        let lt = leb_false→lt r.created_at s.created_at t in
        rw t (
          insert_row-All (λ x. s.created_at ≤ x.created_at) r rs (omega arith) q,
          insert_row-IsOrdered r rs h,
        )
  ]

  order_by-IsOrdered : (rs : List (Row p)) → IsOrdered (Queue.order_by p (Queue.oldest_first p) rs)
  unfolding Queue.order_by
  order_by-IsOrdered [] = tt
  order_by-IsOrdered (r ∷ rs) = insert_row-IsOrdered r _ (order_by-IsOrdered rs)

  created_at-row_to_job :
      (r : Row p) (job : Job p) → row_to_job p r ≡ ok job → job.created_at ≡ r.created_at
  unfolding row_to_job
  created_at-row_to_job r job h =
      let (_, _, h₁) = bind_passed (opened p (codes "jobs.source_path") r.id r.source_path) _ h in
      let (_, _, h₂) = bind_passed (opened p (codes "jobs.source_name") r.id r.source_name) _ h₁ in
      let (_, _, h₃) = bind_passed (opened_opt p (codes "jobs.error") r.id r.error) _ h₂ in
      let (_, _, h₄) =
        bind_passed (opened_opt p (codes "jobs.output_path") r.id r.output_path) _ h₃ in
      subst (λ (j : Job p). j.created_at ≡ r.created_at) (ok-injective _ job h₄) refl

  -- A row that is not before the job, or that does not open.
  abbrev pub NotBefore : Job p → Row p → Type 0
  NotBefore job r = (job.created_at ≤ r.created_at) ⊎ (row_to_job p r ≡ err unreadable)

  later_NotBefore :
      (r : Row p) (rs : List (Row p)) (job : Job p)
      → All (λ (s : Row p). r.created_at ≤ s.created_at) rs
      → row_to_job p r ≡ ok job
      → All (NotBefore job) (r ∷ rs)
  later_NotBefore r rs job q e =
      let same = created_at-row_to_job r job e in
      (inl (omega arith), All_mono (λ s le. inl (omega arith)) rs q)

  take_readable-NotBefore :
      (r : Row p) (rs : List (Row p)) (job : Job p)
      → All (λ (s : Row p). r.created_at ≤ s.created_at) rs
      → (rest : Result StoreError (Option (Job p)))
      → (rest ≡ ok (some job) → All (NotBefore job) rs)
      → (o : Result StoreError (Job p)) → row_to_job p r ≡ o
      → Queue.take_readable p o rest ≡ ok (some job)
      → All (NotBefore job) (r ∷ rs)
  take_readable-NotBefore r rs job q rest ih (ok j) e h = later_NotBefore r rs job q cc
  take_readable-NotBefore r rs job q rest ih (err unreadable) e h = (inr e, ih h)
  take_readable-NotBefore r rs job q rest ih (err unsealable) e h = cc
  take_readable-NotBefore r rs job q rest ih (err not_json) e h = cc
  take_readable-NotBefore r rs job q rest ih (err duplicate_id) e h = cc

  first_readable-NotBefore :
      (rs : List (Row p)) (job : Job p)
      → IsOrdered rs
      → Queue.first_readable p rs ≡ ok (some job)
      → All (NotBefore job) rs
  unfolding Queue.first_readable
  first_readable-NotBefore [] job o h = tt
  first_readable-NotBefore (r ∷ rs) job (q, o) h =
      take_readable-NotBefore r rs job q (Queue.first_readable p rs)
        (λ h'. first_readable-NotBefore rs job o h') (row_to_job p r) refl h

  -- No queued job that opens is older than the one that is taken next.
  pub next_queued-NotBefore :
      (db : Db p) (job : Job p)
      → Queue.next_queued p db ≡ ok (some job)
      → All (NotBefore job) (retain (Queue.is_queued p) db.jobs)
  unfolding Queue.next_queued
  next_queued-NotBefore db job h =
      let queued = retain (Queue.is_queued p) db.jobs in
      elim (Bool-cases p.writable) [
        | inl t ↦
            All_of_order_by (NotBefore job) queued
              (first_readable-NotBefore _ job (order_by-IsOrdered queued) (rw t at h))
        | inr t ↦ cc (rw t at h)
      ]
