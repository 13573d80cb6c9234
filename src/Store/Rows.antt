-- ===== src/Store/Rows.antt =====
-- SQL on the rows: `UPDATE … WHERE`, `SELECT … WHERE id`, and the sealed columns.
use ryu_subtitles.Prelude.{
  ℕ, suc, Bool, not, Option, none, some, List, [], ◌∷◌, if◌then◌else◌, Result, ok, ◌>>=◌, ok_or,
}
use ryu_subtitles.Text.{Text, codes, text_eq, contains_text}
use ryu_subtitles.Cues.Model.{parse_format, Format, default_format}
use ryu_subtitles.Store.Model.{
  Platform, Row, Job, StoreError, unsealable, unreadable, parse_status, parse_layout, unsigned,
}

module _ (p : Platform) where
  -- The rows that satisfy `test` are replaced; the count is the number of changed rows. A failure
  -- in one row undoes the statement.
  unfoldable pub update_rows :
      (Row p → Bool)
      → (Row p → Result StoreError (Row p))
      → List (Row p)
      → Result StoreError (ℕ × List (Row p))
  update_rows test change [] = ok (0, [])
  update_rows test change (r ∷ rs) = do
    rest ← update_rows test change rs
    if test r then (do r' ← change r; ok (suc rest.0, r' ∷ rest.1)) else ok (rest.0, r ∷ rest.1)

  unfoldable pub find_row : Text → List (Row p) → Option (Row p)
  find_row id [] = none
  find_row id (r ∷ rs) = if text_eq r.id id then some r else find_row id rs

  -- `status NOT IN ('completed', 'failed', 'canceled')`.
  unfoldable pub is_active : Row p → Bool
  is_active r =
      not (contains_text r.status (codes "completed" ∷ codes "failed" ∷ codes "canceled" ∷ []))

  -- `ryu_seal`: NULL stays NULL.
  unfoldable pub seal_opt : Text → Text → Option Text → Result StoreError (Option p.Cell)
  seal_opt purpose id none = ok none
  seal_opt purpose id (some value) = do
    cell ← ok_or (p.seal purpose id value) unsealable
    ok (some cell)

  unfoldable pub seal_text : Text → Text → Text → Result StoreError p.Cell
  seal_text purpose id value = ok_or (p.seal purpose id value) unsealable

  -- `opened(ryu_open(…))`.
  unfoldable pub opened : Text → Text → p.Cell → Result StoreError Text
  opened purpose id cell = ok_or (p.unseal purpose id cell) unreadable

  unfoldable pub opened_opt : Text → Text → Option p.Cell → Result StoreError (Option Text)
  opened_opt purpose id none = ok none
  opened_opt purpose id (some cell) = do value ← opened purpose id cell; ok (some value)

  abbrev pub format_or_default : Option Format → Format
  format_or_default (some f) = f
  format_or_default none = default_format

  abbrev pub unsigned_opt : Option ℕ → Option ℕ
  unsigned_opt none = none
  unsigned_opt (some n) = some (unsigned n)

  unfoldable pub row_to_job : Row p → Result StoreError (Job p)
  row_to_job r = do
    source_path ← opened (codes "jobs.source_path") r.id r.source_path
    source_name ← opened (codes "jobs.source_name") r.id r.source_name
    error ← opened_opt (codes "jobs.error") r.id r.error
    output_path ← opened_opt (codes "jobs.output_path") r.id r.output_path
    ok (record {
      id = r.id;
      source_path = source_path;
      source_name = source_name;
      target_language = r.target_language;
      format = format_or_default (parse_format r.format);
      layout = parse_layout r.layout;
      status = parse_status r.status;
      progress = r.progress;
      stage = r.stage;
      error = error;
      duration_ms = unsigned_opt r.duration_ms;
      cue_count = unsigned r.cue_count;
      translated_count = unsigned r.translated_count;
      engine = r.engine;
      model = r.model;
      output_path = output_path;
      created_at = r.created_at;
      updated_at = r.updated_at;
      completed_at = r.completed_at;
    })
