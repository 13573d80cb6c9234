-- ===== src/Store/Queue.antt =====
-- The methods of `SubtitleStore` that read.
pub mod Next
pub mod Created
pub mod Readable
pub mod Kept
pub mod Progress
use ryu_subtitles.Prelude.{
  ℕ, Bool, Option, none, some, List, [], ◌∷◌, take, length, retain, leb, if◌then◌else◌, Result, ok,
  err, ◌>>=◌,
}
use ryu_subtitles.Text.{Text, codes, text_eq}
use ryu_subtitles.Cues.Model.{Cue}
use ryu_subtitles.Store.Model.{
  Platform, Row, Job, Db, Settings, StoreError, unreadable, unsealable, not_json, duplicate_id,
  default_settings,
}
use ryu_subtitles.Store.Rows.{find_row, row_to_job, opened}

module _ (p : Platform) where
  -- The rows in an order; rows that tie keep theirs.
  unfoldable pub insert_row : (Row p → Row p → Bool) → Row p → List (Row p) → List (Row p)
  insert_row before r [] = r ∷ []
  insert_row before r (s ∷ rs) = if before r s then r ∷ s ∷ rs else s ∷ insert_row before r rs

  unfoldable pub order_by : (Row p → Row p → Bool) → List (Row p) → List (Row p)
  order_by before [] = []
  order_by before (r ∷ rs) = insert_row before r (order_by before rs)

  -- `created_at ASC` and `created_at DESC`.
  abbrev pub oldest_first : Row p → Row p → Bool
  oldest_first r s = leb r.created_at s.created_at

  abbrev pub newest_first : Row p → Row p → Bool
  newest_first r s = leb s.created_at r.created_at

  unfoldable pub get_job : Text → Db p → Result StoreError (Option (Job p))
  get_job id db = elim (find_row p id db.jobs) [
    | none ↦ ok none
    | some r ↦ do job ← row_to_job p r; ok (some job)
  ]

  -- A row of the `for` loop of `next_queued`: one that does not open is skipped.
  abbrev pub take_readable :
      Result StoreError (Job p)
      → Result StoreError (Option (Job p))
      → Result StoreError (Option (Job p))
  take_readable (ok job) rest = ok (some job)
  take_readable (err unreadable) rest = rest
  take_readable (err unsealable) rest = err unsealable
  take_readable (err not_json) rest = err not_json
  take_readable (err duplicate_id) rest = err duplicate_id

  unfoldable pub first_readable : List (Row p) → Result StoreError (Option (Job p))
  first_readable [] = ok none
  first_readable (r ∷ rs) = let rest = first_readable rs in take_readable (row_to_job p r) rest

  unfoldable pub is_queued : Row p → Bool
  is_queued r = text_eq r.status (codes "queued")

  unfoldable pub next_queued : Db p → Result StoreError (Option (Job p))
  next_queued db =
      if p.writable
      then first_readable (order_by oldest_first (retain is_queued db.jobs))
      else ok none

  -- `collect_readable`.
  unfoldable pub collect_readable : List (Row p) → Result StoreError (List (Job p))
  collect_readable [] = ok []
  collect_readable (r ∷ rs) =
      let rest = collect_readable rs in
      elim (row_to_job p r) [
        | ok job ↦ (do jobs ← rest; ok (job ∷ jobs))
        | err e ↦ elim e [ unreadable ↦ rest | other ↦ err other ]
      ]

  unfoldable pub list_jobs : ℕ → Db p → Result StoreError (List (Job p))
  list_jobs limit db = collect_readable (take limit (order_by newest_first db.jobs))

  -- `cues`: no row and no JSON are an empty list.
  abbrev pub cues_or_nil : Option (List Cue) → List Cue
  cues_or_nil none = []
  cues_or_nil (some cues) = cues

  unfoldable pub cues : Text → Db p → Result StoreError (List Cue)
  cues id db = elim (find_row p id db.jobs) [
    | none ↦ ok []
    | some r ↦ do
      json ← opened p (codes "jobs.cues") r.id r.cues
      ok (cues_or_nil (p.cues_from_json json))
  ]

  abbrev pub settings_or_default : Option Settings → Settings
  settings_or_default none = default_settings
  settings_or_default (some s) = s

  unfoldable pub settings : Db p → Settings
  settings db = elim db.settings [
    | none ↦ default_settings
    | some blob ↦ settings_or_default (p.settings_from_json blob)
  ]

  unfoldable pub job_count : Db p → ℕ
  job_count db = length db.jobs
