-- ===== src/Store/Queue/Progress.antt =====
-- That `next_queued` of backend/src/store.rs finds a job.
use ryu_subtitles.Prelude.{
  Bool, subst, ◌≡◌, refl, sym, true, Option, none, some, List, [], ◌∷◌, ◌⊎◌, inl, inr, arith,
  Result, ok, err, Bool-cases, retain, if◌then◌else◌,
}
use ryu_subtitles.Store.Model.{
  Platform, Row, Job, Db, StoreError, unreadable, unsealable, not_json, duplicate_id,
}
use ryu_subtitles.Store.Rows.{row_to_job, opened, opened_opt}
use ryu_subtitles.Store.Queue
use ryu_subtitles.Store.Queue.Readable.{IsReadable, readable_job}

module _ (p : Platform) where
  abbrev pub MemberRow : Row p → List (Row p) → Type 0
  MemberRow r [] = ⊥
  MemberRow r (s ∷ rs) = (r ≡ s) ⊎ MemberRow r rs

  insert_row-here :
      (before : Row p → Row p → Bool) (r : Row p) (rs : List (Row p))
      → MemberRow r (Queue.insert_row p before r rs)
  unfolding Queue.insert_row
  insert_row-here before r [] = inl refl
  insert_row-here before r (s ∷ rs) = elim (Bool-cases (before r s)) [
    | inl t ↦ rw t (inl refl)
    | inr t ↦ rw t (inr (insert_row-here before r rs))
  ]

  insert_row-there :
      (before : Row p → Row p → Bool) (q r : Row p) (rs : List (Row p))
      → MemberRow q rs
      → MemberRow q (Queue.insert_row p before r rs)
  unfolding Queue.insert_row
  insert_row-there before q r [] m = absurd m
  insert_row-there before q r (s ∷ rs) m = elim (Bool-cases (before r s)) [
    | inl t ↦ rw t (inr m)
    | inr t ↦ rw t (elim m [ inl e ↦ inl e | inr k ↦ inr (insert_row-there before q r rs k) ])
  ]

  order_by-MemberRow :
      (before : Row p → Row p → Bool) (q : Row p) (rs : List (Row p))
      → MemberRow q rs
      → MemberRow q (Queue.order_by p before rs)
  unfolding Queue.order_by
  order_by-MemberRow before q [] m = absurd m
  order_by-MemberRow before q (r ∷ rs) (inl e) =
      rw e (insert_row-here before r (Queue.order_by p before rs))
  order_by-MemberRow before q (r ∷ rs) (inr m) =
      insert_row-there before q r _ (order_by-MemberRow before q rs m)

  retain-MemberRow :
      (q : Row p) (rs : List (Row p))
      → MemberRow q rs
      → Queue.is_queued p q ≡ true
      → MemberRow q (retain (Queue.is_queued p) rs)
  unfolding retain
  retain-MemberRow q [] m h = absurd m
  retain-MemberRow q (r ∷ rs) (inl e) h = rw (sym e, h) (inl refl)
  retain-MemberRow q (r ∷ rs) (inr m) h = elim (Bool-cases (Queue.is_queued p r)) [
    | inl t ↦ rw t (inr (retain-MemberRow q rs m h))
    | inr t ↦ rw t (retain-MemberRow q rs m h)
  ]

  -- `row_to_job` fails where a column does not open only.
  only_unreadable : (r : Row p) (e : StoreError) → row_to_job p r ≡ err e → e ≡ unreadable
  unfolding row_to_job opened opened_opt
  only_unreadable r e h = ground arith

  take_readable-some :
      (r : Row p) (o : Result StoreError (Job p)) (rest : Result StoreError (Option (Job p)))
      → row_to_job p r ≡ o
      → (j : Job p) × (rest ≡ ok (some j))
      → (j : Job p) × (Queue.take_readable p o rest ≡ ok (some j))
  take_readable-some r (ok j) rest e h = (j, refl)
  take_readable-some r (err unreadable) rest e h = h
  take_readable-some r (err unsealable) rest e h = cc (only_unreadable r unsealable e)
  take_readable-some r (err not_json) rest e h = cc (only_unreadable r not_json e)
  take_readable-some r (err duplicate_id) rest e h = cc (only_unreadable r duplicate_id e)

  first_readable-some :
      (q : Row p) (rs : List (Row p))
      → MemberRow q rs
      → IsReadable p q
      → (j : Job p) × (Queue.first_readable p rs ≡ ok (some j))
  unfolding Queue.first_readable
  first_readable-some q [] m h = absurd m
  first_readable-some q (r ∷ rs) (inl e) h =
      let (j, f) = readable_job p q h in rw (sym e, f) (j, refl)
  first_readable-some q (r ∷ rs) (inr m) h =
      take_readable-some r (row_to_job p r) (Queue.first_readable p rs) refl
        (first_readable-some q rs m h)

  -- On a store that can be written, a queued job that opens is never stuck: `next_queued` returns a
  -- job, however many rows before it do not open.
  pub next_queued-some :
      (db : Db p) (r : Row p)
      → p.writable ≡ true
      → MemberRow r db.jobs
      → Queue.is_queued p r ≡ true
      → IsReadable p r
      → (j : Job p) × (Queue.next_queued p db ≡ ok (some j))
  unfolding Queue.next_queued
  next_queued-some db r w m queued h =
      let rows = Queue.order_by p (Queue.oldest_first p) (retain (Queue.is_queued p) db.jobs) in
      subst
        (λ b. (j : Job p) × ((if b then Queue.first_readable p rows else ok none) ≡ ok (some j)))
        (sym w)
        (first_readable-some r rows
          (order_by-MemberRow (Queue.oldest_first p) r _ (retain-MemberRow r db.jobs m queued)) h)
