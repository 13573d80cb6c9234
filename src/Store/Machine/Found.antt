-- ===== src/Store/Machine/Found.antt =====
-- The row of an id behind the statements of backend/src/store.rs.
use ryu_subtitles.Prelude.{
  ℕ, ◌≡◌, refl, Bool, true, false, not, inl, inr, none, some, List, [], ◌∷◌, ◌++◌, arith, Result,
  ok, Bool-cases, retain,
}
use ryu_subtitles.Text.{Text, text_eq}
use ryu_subtitles.Text.Equal.{text_eq→eq}
use ryu_subtitles.Store.Model.{Platform, Row, StoreError}
use ryu_subtitles.Store.Rows.{find_row}
use ryu_subtitles.Store.Jobs
use ryu_subtitles.Store.Jobs.Updates.{Updates, done, hit, miss}

module _ (p : Platform) where
  module _ (test : Row p → Bool) (change : Row p → Result StoreError (Row p))
      (keeps : (r r' : Row p) → change r ≡ ok r' → r'.id ≡ r.id) where
    pub find_row-none :
        (id : Text) {rs : List (Row p)} {n : ℕ} {rs' : List (Row p)}
        → Updates p test change rs n rs'
        → find_row p id rs ≡ none
        → find_row p id rs' ≡ none
    unfolding find_row
    find_row-none id done h = h
    find_row-none id (hit {r = s} {r' = s'} t c u) h =
        ground (arith, keeps s s' c, find_row-none id u)
    find_row-none id (miss {r = s} t u) h = ground (arith, find_row-none id u)

  -- The rows behind a deletion and behind an insertion.
  pub deleted-none :
      (id : Text) (rows : List (Row p))
      → find_row p id (retain (λ r. not (Jobs.has_id p id r)) rows) ≡ none
  unfolding find_row retain Jobs.has_id
  deleted-none id [] = refl
  deleted-none id (r ∷ rows) = elim (Bool-cases (text_eq r.id id)) [
    | inl e ↦ rw e (deleted-none id rows)
    | inr e ↦ rw (e, e) (deleted-none id rows)
  ]

  distinct :
      (a id other : Text) → text_eq a id ≡ true → text_eq id other ≡ false → text_eq a other ≡ false
  distinct a id other e h = rw (text_eq→eq a id e) h

  pub deleted-other :
      (id other : Text) (rows : List (Row p))
      → text_eq id other ≡ false
      → find_row p other (retain (λ r. not (Jobs.has_id p id r)) rows) ≡ find_row p other rows
  unfolding find_row retain Jobs.has_id
  deleted-other id other [] h = refl
  deleted-other id other (r ∷ rows) h = elim (Bool-cases (text_eq r.id id)) [
    | inl e ↦ rw (e, distinct r.id id other e h) (deleted-other id other rows h)
    | inr e ↦ ground (arith, deleted-other id other rows h)
  ]

  pub appended-some :
      (id : Text) (r row : Row p) (rows : List (Row p))
      → find_row p id rows ≡ some r
      → find_row p id (rows ++ row ∷ []) ≡ some r
  unfolding find_row
  appended-some id r row [] h = cc
  appended-some id r row (x ∷ rows) h = ground (arith, appended-some id r row rows)

  pub appended-none :
      (id : Text) (row : Row p) (rows : List (Row p))
      → find_row p id rows ≡ none
      → find_row p id (rows ++ row ∷ []) ≡ find_row p id (row ∷ [])
  unfolding find_row
  appended-none id row [] h = refl
  appended-none id row (x ∷ rows) h = ground (arith, appended-none id row rows)
