-- ===== src/Cues/Assemble.antt =====
-- `split_long` and `cues_from_segments` of backend/src/cues.rs.
pub mod Spread
pub mod Long
pub mod Windows
use ryu_subtitles.Prelude.{
  ℕ, ◌+◌, ◌*◌, ◌/◌, max, min, none, List, [], ◌∷◌, ◌++◌, length, leb, ◌&&◌, add_u64, mul_u64,
  saturating_sub, if◌then◌else◌,
}
use ryu_subtitles.Text.{Text, is_empty}
use ryu_subtitles.Cues.Model.{
  Cue, TranscriptSegment, max_line_chars, max_lines, max_cue_ms, min_cue_ms,
}
use ryu_subtitles.Cues.Clean.{clean}
use ryu_subtitles.Cues.Break.{split_text, total_chars}

module _ (cue : Cue) (duration total : ℕ) where
  -- Where a part that is not the last one leaves, if it appears at `cursor`.
  abbrev pub part_end : ℕ → Text → ℕ
  part_end cursor part =
      let share = mul_u64 duration (length part) / total in min (add_u64 cursor share) cue.end_ms

  -- The `for` loop of `split_long`, from the part at `cursor` on.
  unfoldable pub spread : ℕ → List Text → List Cue
  spread cursor [] = []
  spread cursor (part ∷ []) =
      record {
        start_ms = cursor;
        end_ms = max cue.end_ms (add_u64 cursor 1);
        text = part;
        translated = none;
      }
      ∷ []
  spread cursor (part ∷ next ∷ parts) =
      let end = part_end cursor part in
      record {
        start_ms = cursor;
        end_ms = max end (add_u64 cursor 1);
        text = part;
        translated = none;
      }
      ∷ spread end (next ∷ parts)

unfoldable pub split_long : Cue → List Cue
unfolding spread total_chars
split_long cue =
    let budget = max_line_chars * max_lines in
    let duration = saturating_sub cue.end_ms cue.start_ms in
    let parts = split_text cue.text budget in
    if leb (length cue.text) budget && leb duration max_cue_ms
    then cue ∷ []
    else if leb (length parts) 1
    then cue ∷ []
    else spread cue duration (max (total_chars parts) 1) cue.start_ms parts

-- One round of the loop over the segments.
unfoldable pub segment_cues : ℕ → TranscriptSegment → List Cue
unfolding split_long
segment_cues offset_ms segment =
    let text = clean segment.text in
    if is_empty text
    then []
    else split_long (record {
      start_ms = add_u64 offset_ms segment.start_ms;
      end_ms = add_u64 offset_ms (max segment.end_ms (add_u64 segment.start_ms min_cue_ms));
      text = text;
      translated = none;
    })

unfoldable pub segments_cues : ℕ → List TranscriptSegment → List Cue
unfolding segment_cues
segments_cues offset_ms [] = []
segments_cues offset_ms (segment ∷ segments) =
    segment_cues offset_ms segment ++ segments_cues offset_ms segments

unfoldable pub cues_from_segments : ℕ → List TranscriptSegment → Text → ℕ → List Cue
unfolding segments_cues
cues_from_segments offset_ms [] fallback_text window_duration_ms =
    let text = clean fallback_text in
    if is_empty text
    then []
    else split_long (record {
      start_ms = offset_ms;
      end_ms = add_u64 offset_ms (max window_duration_ms min_cue_ms);
      text = text;
      translated = none;
    })
cues_from_segments offset_ms (segment ∷ segments) fallback_text window_duration_ms =
    segments_cues offset_ms (segment ∷ segments)
