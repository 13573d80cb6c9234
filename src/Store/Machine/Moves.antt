-- ===== src/Store/Machine/Moves.antt =====
-- The guarded statements of backend/src/store.rs, against the abstract machine.
use ryu_subtitles.Prelude.{
  ℕ, ◌≡◌, refl, ap, Bool, true, false, not, ◌&&◌, inl, inr, some, List, [], ◌∷◌, arith, Result, ok,
  Bool-cases, Option-cases, if◌then◌else◌,
}
use ryu_subtitles.Text.{Text, codes, text_eq, contains_text}
use ryu_subtitles.Text.Equal.{text_eq→eq}
use ryu_subtitles.Store.Model.{
  Platform, Row, StoreError, Status, canceled, parse_status, is_terminal, as_str,
  parse_status-as_str,
}
use ryu_subtitles.Store.Rows.{find_row, is_active}
use ryu_subtitles.Store.Jobs
use ryu_subtitles.Store.Jobs.Updates.{Updates, find_row-id, find_row_hit, find_row_miss}
use ryu_subtitles.Store.Queue.Kept.{is_terminal-parse_status}
use ryu_subtitles.Store.Machine.Found.{find_row-none}
use ryu_subtitles.Store.Machine.{row_status, each, is_running_status}

module _ (p : Platform) where
  -- What a statement makes of the status of an id, from what it makes of a row of that id.
  pub updated_status :
      (test : Row p → Bool) (change : Row p → Result StoreError (Row p))
      (keeps : (r r' : Row p) → change r ≡ ok r' → r'.id ≡ r.id) (id : Text)
      (next : Status → Status)
      → ((r r' : Row p)
          → r.id ≡ id
          → test r ≡ true
          → change r ≡ ok r'
          → parse_status r'.status ≡ next (parse_status r.status))
      → ((r : Row p)
          → r.id ≡ id
          → test r ≡ false
          → parse_status r.status ≡ next (parse_status r.status))
      → {rs : List (Row p)} {n : ℕ} {rs' : List (Row p)} → Updates p test change rs n rs'
      → row_status p (find_row p id rs') ≡ each p next (row_status p (find_row p id rs))
  updated_status test change keeps id next hits misses {rs} {n} {rs'} u =
      elim (Option-cases (find_row p id rs)) [
        | inl e ↦ rw (e, find_row-none p test change keeps id u e) refl
        | inr (r, e) ↦
            let same = text_eq→eq r.id id (find_row-id p id r rs e) in
            elim (Bool-cases (test r)) [
              | inl t ↦
                  let (r', c, f) = find_row_hit p test change keeps id r u t e in
                  rw (e, f) (ap some (hits r r' same t c))
              | inr t ↦
                  rw (e, find_row_miss p test change keeps id r u t e) (ap some (misses r same t))
            ]
      ]

  -- The guard of a statement, as the machine reads it.
  guard_status :
      (id other : Text) (r : Row p)
      → r.id ≡ id
      → Jobs.is_active_id p other r ≡ text_eq id other && not (is_terminal (parse_status r.status))
  unfolding Jobs.is_active_id Jobs.has_id is_active
  guard_status id other r same = rw (same, is_terminal-parse_status r.status) refl

  pub wrote_active :
      (change : Row p → Result StoreError (Row p))
      (keeps : (r r' : Row p) → change r ≡ ok r' → r'.id ≡ r.id) (id other : Text) (s : Status)
      → ((r r' : Row p) → change r ≡ ok r' → r'.status ≡ as_str s)
      → {rs : List (Row p)} {n : ℕ} {rs' : List (Row p)}
      → Updates p (Jobs.is_active_id p other) change rs n rs'
      → row_status p (find_row p id rs')
        ≡ each p
            (λ a. if text_eq id other && not (is_terminal a) then s else a)
            (row_status p (find_row p id rs))
  wrote_active change keeps id other s writes u =
      updated_status (Jobs.is_active_id p other) change keeps id _
        (λ r r' same t c.
          rw (writes r r' c, parse_status-as_str s, ← guard_status id other r same, t) refl)
        (λ r same t. rw (← guard_status id other r same, t) refl) u

  pub kept_status :
      (test : Row p → Bool) (change : Row p → Result StoreError (Row p))
      (keeps : (r r' : Row p) → change r ≡ ok r' → r'.id ≡ r.id) (id : Text)
      → ((r r' : Row p) → change r ≡ ok r' → r'.status ≡ r.status)
      → {rs : List (Row p)} {n : ℕ} {rs' : List (Row p)} → Updates p test change rs n rs'
      → row_status p (find_row p id rs') ≡ each p (λ a. a) (row_status p (find_row p id rs))
  kept_status test change keeps id stays u =
      updated_status test change keeps id _ (λ r r' same t c. ap parse_status (stays r r' c))
        (λ r same t. refl) u

  is_running-parse_status :
      (value : Text)
      → is_running_status (parse_status value)
        ≡ contains_text value (codes "transcribing" ∷ codes "translating" ∷ [])
  unfolding is_running_status parse_status contains_text
  is_running-parse_status value = ground arith

  pub interrupted_status :
      (change : Row p → Result StoreError (Row p))
      (keeps : (r r' : Row p) → change r ≡ ok r' → r'.id ≡ r.id) (id : Text)
      → ((r r' : Row p) → change r ≡ ok r' → r'.status ≡ as_str canceled)
      → {rs : List (Row p)} {n : ℕ} {rs' : List (Row p)}
      → Updates p (Jobs.is_running p) change rs n rs'
      → row_status p (find_row p id rs')
        ≡ each p
            (λ a. if is_running_status a then canceled else a)
            (row_status p (find_row p id rs))
  unfolding Jobs.is_running
  interrupted_status change keeps id writes u =
      updated_status (Jobs.is_running p) change keeps id _
        (λ r r' same t c.
          rw (writes r r' c, parse_status-as_str canceled, is_running-parse_status r.status, t)
            refl)
        (λ r same t. rw (is_running-parse_status r.status, t) refl) u
