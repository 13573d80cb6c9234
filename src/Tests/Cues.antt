-- ===== src/Tests/Cues.antt =====
-- The theorems on cues at concrete inputs.
use mathlib.Core.List.{Perm}
use ryu_subtitles.Prelude.{
  suc, ◌+◌, ◌≤◌, ◌<◌, ◌≡◌, refl, none, some, List, [], ◌∷◌, ◌++◌, arith, length, map, retain, All,
  Chain,
}
use ryu_subtitles.Text.{
  Text, codes, ink, byte_len, trim, trim_start, trim_end, is_whitespace, keep_end,
  to_ascii_lowercase, ascii_lower, contains_text, text_eq, split_whitespace, attach, join,
}
use ryu_subtitles.Cues.Model.{Cue, TranscriptSegment}
use ryu_subtitles.Cues.Clean.{clean}
use ryu_subtitles.Cues.Break.{best_break, split_text, split_rounds, total_chars}
use ryu_subtitles.Cues.Break.Cut.{best_break_bounds}
use ryu_subtitles.Cues.Break.Parts.{ink_parts, IsPart, split_text-total, split_text_sound}
use ryu_subtitles.Cues.Assemble.{split_long, cues_from_segments}
use ryu_subtitles.Cues.Assemble.Long.{SplitsInto, split_long-SplitsInto}
use ryu_subtitles.Cues.Assemble.Windows.{
  SegmentFits, Covers, segments_ink, cues_from_segments-Covers,
}
use ryu_subtitles.Cues.Normalize.{normalize, is_spoken}
use ryu_subtitles.Cues.Normalize.Settle.{HasRoom, HasSpan, HasGap, StartsBefore, kept}
use ryu_subtitles.Cues.Normalize.Stable.{normalize_sound, normalize_again, normalize-perm}
use ryu_subtitles.Cues.Timestamp.{timestamp}
use ryu_subtitles.Cues.Timestamp.Read.{Reads, timestamp-Reads}
use ryu_subtitles.Cues.Render.Shown.{Says}

abbrev first_cue : Cue
first_cue = record { start_ms = 500; end_ms = 2000; text = codes "Hello there."; translated = none }

abbrev second_cue : Cue
second_cue = record {
  start_ms = 1000;
  end_ms = 1500;
  text = codes "How are you?";
  translated = some (codes "¿Qué tal?");
}

abbrev two_cues : List Cue
two_cues = second_cue ∷ first_cue ∷ []

abbrev long_text : Text
long_text = codes "This one goes on, and on."

best_break_example :
    (p : Text) × (q : Text) × (long_text ≡ p ++ q)
    × (byte_len p ≡ best_break long_text 20)
    × (0 < length p)
    × (length p ≤ 20)
best_break_example = best_break_bounds long_text 20 (omega arith) (omega arith)

split_text-total_example :
    split_rounds (suc (length (trim long_text))) (trim long_text) 10
    ≡ some (split_text long_text 10)
split_text-total_example = split_text-total long_text 10 (omega arith)

split_text_example :
    (ink_parts (split_text long_text 10) ≡ ink long_text)
    × All (IsPart 10) (split_text long_text 10)
    × (total_chars (split_text long_text 10) ≤ length long_text)
split_text_example = split_text_sound long_text 10 (omega arith)

abbrev segment : TranscriptSegment
segment = record { start_ms = 0; end_ms = 3000; text = codes "Hello there." }

length-clean : length (clean segment.text) ≡ 12
unfolding clean trim trim_start trim_end is_whitespace keep_end to_ascii_lowercase ascii_lower
    contains_text text_eq split_whitespace attach join
length-clean = refl

segment-SegmentFits : SegmentFits 30000 60000 segment
segment-SegmentFits = record {
  ends = omega arith;
  room = omega arith;
  product = rw length-clean (omega arith);
}

abbrev two_cues-HasRoom : All HasRoom two_cues
two_cues-HasRoom = (
  record { start = omega arith; end = omega arith },
  (record { start = omega arith; end = omega arith }, tt),
)

two_cues-Says : All Says two_cues
unfolding is_spoken trim trim_start trim_end is_whitespace ink
two_cues-Says =
    (record { source = refl; target = refl }, (record { source = refl; target = refl }, tt))

split_long_example : SplitsInto first_cue (split_long first_cue)
split_long_example =
    split_long-SplitsInto first_cue
      (record { lasts = omega arith; room = omega arith; product = omega arith })

cues_from_segments_example :
    Covers 30000
      (60000 + 1)
      (segments_ink (segment ∷ []))
      (cues_from_segments 30000 (segment ∷ []) [] 30000)
cues_from_segments_example =
    cues_from_segments-Covers 30000 60000 segment [] [] 30000 (segment-SegmentFits, tt)

normalize_example :
    Chain StartsBefore (normalize two_cues)
    × All HasSpan (normalize two_cues)
    × Chain HasGap (normalize two_cues)
normalize_example = normalize_sound two_cues two_cues-HasRoom

normalize_again_example : normalize (normalize two_cues) ≡ normalize two_cues
normalize_again_example = normalize_again two_cues two_cues-HasRoom

normalize-perm_example : Perm (map kept (normalize two_cues)) (map kept (retain is_spoken two_cues))
normalize-perm_example = normalize-perm two_cues

timestamp_example : Reads 5025678 b',' (timestamp 5025678 b',')
timestamp_example = timestamp-Reads 5025678 b','

split_sentences :
    split_text (codes "One two. Three four, five") 12
    ≡ codes "One two." ∷ codes "Three four," ∷ codes "five" ∷ []
unfolding split_text trim_end is_whitespace
split_sentences = refl

two_hours : timestamp 7384005 b',' ≡ codes "02:03:04,005"
unfolding timestamp
two_hours = refl
