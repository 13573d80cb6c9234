-- ===== src/Store/Jobs/Content.antt =====
-- `set_cues` and `cues` of backend/src/store.rs together.
use ryu_subtitles.Prelude.{
  ℕ, ◌≡◌, refl, subst, true, some, inl, inr, List, arith, ok, bind_passed, ok-injective,
  Option-cases, length, retain,
}
use ryu_subtitles.Text.{Text, codes, text_eq, trim_start, trim_end, is_whitespace, ascii_lower}
use ryu_subtitles.Text.Equal.{text_eq→eq}
use ryu_subtitles.Cues.Model.{Cue, Format, srt, vtt, extension, parse_format}
use ryu_subtitles.Store.Model.{Platform, Row, Db}
use ryu_subtitles.Store.Rows.{is_active, find_row, seal_text, opened}
use ryu_subtitles.Store.Jobs
use ryu_subtitles.Store.Jobs.Updates.{update-Updates, find_row_hit, find_row-id}
use ryu_subtitles.Store.Jobs.Guarded.{cues-IsGuarded}
use ryu_subtitles.Store.Queue

-- A value that is sealed for a column and a row opens there.
pub record Opens (p : Platform) : Type 0 where
  pub opens :
      (purpose id value : Text) (cell : p.Cell)
      → p.seal purpose id value ≡ some cell
      → p.unseal purpose id cell ≡ some value

pub parse_format-extension : (f : Format) → parse_format (extension f) ≡ some f
unfolding parse_format extension trim_start trim_end is_whitespace ascii_lower text_eq
parse_format-extension srt = refl
parse_format-extension vtt = refl

module _ (p : Platform) (law : Opens p) where
  pub opened_seal :
      (purpose id value : Text) (cell : p.Cell)
      → seal_text p purpose id value ≡ ok cell
      → opened p purpose id cell ≡ ok value
  unfolding seal_text opened
  opened_seal purpose id value cell h = elim (Option-cases (p.seal purpose id value)) [
    | inl e ↦ absurd (ground arith)
    | inr (c, e) ↦ rw (law.opens purpose id value cell (ground arith))
  ]

  -- What `set_cues` writes into the row.
  record Holds (id json : Text) (cues : List Cue) (r : Row p) : Type 0 where
    sealed : opened p (codes "jobs.cues") r.id r.cues ≡ ok json
    counted : r.cue_count ≡ length cues
    translated : r.translated_count ≡ length (retain (Jobs.is_translated p) cues)

  write_cues-Holds :
      (id json : Text) (cues : List Cue) (now : ℕ) (r r' : Row p)
      → r.id ≡ id
      → Jobs.write_cues p id json cues now r ≡ ok r'
      → Holds id json cues r'
  unfolding Jobs.write_cues
  write_cues-Holds id json cues now r r' same h =
      let (cell, e, f) = bind_passed (seal_text p (codes "jobs.cues") id json) _ h in
      subst (Holds id json cues) (ok-injective _ r' f) (record {
        sealed = rw same (opened_seal (codes "jobs.cues") id json cell e);
        counted = refl;
        translated = refl;
      })

  read_back :
      (id json : Text) (cues : List Cue) (db : Db p) (r : Row p)
      → find_row p id db.jobs ≡ some r
      → opened p (codes "jobs.cues") r.id r.cues ≡ ok json
      → p.cues_from_json json ≡ some cues
      → Queue.cues p id db ≡ ok cues
  unfolding Queue.cues
  read_back id json cues db r here sealed from = ground arith

  -- The cues that are written to an active job are read back, with their number and the number of
  -- those that are translated, where the values open as they were sealed and the JSON of these cues
  -- is read back.
  pub cues-set_cues :
      (id json : Text) (cues : List Cue) (now : ℕ) (db : Db p) (r : Row p) (out : ℕ × Db p)
      → p.cues_to_json cues ≡ some json
      → p.cues_from_json json ≡ some cues
      → find_row p id db.jobs ≡ some r
      → is_active p r ≡ true
      → Jobs.set_cues p id cues now db ≡ ok out
      → (Queue.cues p id out.1 ≡ ok cues)
        × (r' : Row p) × (find_row p id out.1.jobs ≡ some r')
        × (r'.cue_count ≡ length cues)
        × (r'.translated_count ≡ length (retain (Jobs.is_translated p) cues))
  unfolding Jobs.set_cues
  cues-set_cues id json cues now db r out to from here active h =
      let run : Jobs.update p (Jobs.is_active_id p id) (Jobs.write_cues p id json cues now) db
          ≡ ok out =
        ground (arith, to) in
      let u = update-Updates p _ _ db out run in
      let g = cues-IsGuarded p id json cues now in
      let same = find_row-id p id r db.jobs here in
      let hits : Jobs.is_active_id p id r ≡ true =
        unfold Jobs.is_active_id Jobs.has_id in rw (same, active) in
      let (r', c, f) = find_row_hit p _ _ g.keeps id r u hits here in
      let holds = write_cues-Holds id json cues now r r' (text_eq→eq r.id id same) c in
      (read_back id json cues out.1 r' f holds.sealed from, r', f, holds.counted, holds.translated)
