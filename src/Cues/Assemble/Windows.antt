-- ===== src/Cues/Assemble/Windows.antt =====
-- The result of `cues_from_segments` in backend/src/cues.rs for a window.
use ryu_subtitles.Prelude.{
  ℕ, ◌+◌, ◌-◌, ◌*◌, ◌≤◌, ◌<◌, ◌^◌, ◌≡◌, refl, ap, ap₂, ◌∙◌, true, List, [], ◌∷◌, ◌++◌, arith, All,
  All_mono, All-append, length, max, Bool-cases, inl, inr, add_u64, none, retain,
}
use ryu_subtitles.Text.{Text, ink, is_empty}
use ryu_subtitles.Cues.Model.{Cue, TranscriptSegment, min_cue_ms}
use ryu_subtitles.Cues.Clean.{clean}
use ryu_subtitles.Cues.Break.Parts.{ink_parts}
use ryu_subtitles.Cues.Break.Wrap.{ink_parts-append}
use ryu_subtitles.Cues.Assemble.{split_long, segment_cues, segments_cues, cues_from_segments}
use ryu_subtitles.Cues.Assemble.Spread.{texts, LiesIn}
use ryu_subtitles.Cues.Assemble.Long.{SpanFits, split_long-SplitsInto}

-- A segment of a window at `offset_ms` that ends by `stop`, taken to last 800 ms at least, and whose
-- computations fit 64 bits.
pub record SegmentFits (offset_ms stop : ℕ) (segment : TranscriptSegment) : Type 0 where
  pub ends : offset_ms + max segment.end_ms (segment.start_ms + min_cue_ms) ≤ stop
  pub room : stop < 2 ^ 63
  pub product :
      max segment.end_ms (segment.start_ms + min_cue_ms) * (length (clean segment.text) + 1)
      < 2 ^ 64

-- The cues hold the given words and lie between two times.
pub record Covers (start stop : ℕ) (spoken : Text) (cues : List Cue) : Type 0 where
  pub words : ink_parts (texts cues) ≡ spoken
  pub inside : All (LiesIn start stop) cues

texts-append : (cs ds : List Cue) → texts (cs ++ ds) ≡ texts cs ++ texts ds
texts-append [] ds = refl
texts-append (c ∷ cs) ds = ap (λ ts. c.text ∷ ts) (texts-append cs ds)

Covers-append :
    (start stop : ℕ) (u v : Text) (cs ds : List Cue)
    → Covers start stop u cs
    → Covers start stop v ds
    → Covers start stop (u ++ v) (cs ++ ds)
Covers-append start stop u v cs ds hc hd = record {
  words =
      ap ink_parts (texts-append cs ds)
      ∙ ink_parts-append (texts cs) (texts ds)
      ∙ ap₂ (λ s t. s ++ t) hc.words hd.words;
  inside = All-append (LiesIn start stop) cs ds hc.inside hd.inside;
}

-- The words of a window, segment by segment.
pub segments_ink : List TranscriptSegment → Text
segments_ink [] = []
segments_ink (segment ∷ segments) = ink (clean segment.text) ++ segments_ink segments

mul-le-mul_right : (d e c : ℕ) → d ≤ e → d * c ≤ e * c
mul-le-mul_right d e c h = grind arith

abbrev segment_cue : ℕ → TranscriptSegment → Cue
segment_cue offset_ms segment = record {
  start_ms = add_u64 offset_ms segment.start_ms;
  end_ms = add_u64 offset_ms (max segment.end_ms (add_u64 segment.start_ms min_cue_ms));
  text = clean segment.text;
  translated = none;
}

segment_cue-SpanFits :
    (offset_ms stop : ℕ) (segment : TranscriptSegment)
    → SegmentFits offset_ms stop segment
    → SpanFits (segment_cue offset_ms segment)
segment_cue-SpanFits offset_ms stop segment fits =
    let c = segment_cue offset_ms segment in
    record {
      lasts = omega arith;
      room = omega arith;
      product = omega (
        arith,
        fits.product,
        mul-le-mul_right (c.end_ms - c.start_ms)
            (max segment.end_ms (segment.start_ms + min_cue_ms)) (length c.text + 1) (omega arith),
      );
    }

LiesIn-widen : (a b a' b' : ℕ) (c : Cue) → a' ≤ a → b ≤ b' → LiesIn a b c → LiesIn a' b' c
LiesIn-widen a b a' b' c h k l = omega arith

no_ink : (t : Text) → is_empty t ≡ true → ink_parts [] ≡ ink t
unfolding ink_parts ink retain
no_ink [] e = refl
no_ink (c ∷ t) e = cc

Covers-segment :
    (offset_ms stop : ℕ) (segment : TranscriptSegment)
    → SegmentFits offset_ms stop segment
    → Covers offset_ms (stop + 1) (ink (clean segment.text)) (segment_cues offset_ms segment)
unfolding segment_cues
Covers-segment offset_ms stop segment fits = elim (Bool-cases (is_empty (clean segment.text))) [
  | inl e ↦ rw e (record { words = no_ink (clean segment.text) e; inside = tt })
  | inr e ↦
      let c = segment_cue offset_ms segment in
      let split = split_long-SplitsInto c (segment_cue-SpanFits offset_ms stop segment fits) in
      rw e (record {
        words = split.words;
        inside =
            All_mono
              (λ d.
                LiesIn-widen c.start_ms (c.end_ms + 1) offset_ms (stop + 1) d (omega arith)
                  (omega arith))
              (split_long c) split.inside;
      })
]

segments_cues-Covers :
    (offset_ms stop : ℕ) (segments : List TranscriptSegment)
    → All (SegmentFits offset_ms stop) segments
    → Covers offset_ms (stop + 1) (segments_ink segments) (segments_cues offset_ms segments)
unfolding segments_cues segments_ink
segments_cues-Covers offset_ms stop [] h = record {
  words = (unfold ink_parts in refl);
  inside = tt;
}
segments_cues-Covers offset_ms stop (segment ∷ segments) (p, h) =
    Covers-append offset_ms (stop + 1) (ink (clean segment.text)) (segments_ink segments)
      (segment_cues offset_ms segment) (segments_cues offset_ms segments)
      (Covers-segment offset_ms stop segment p) (segments_cues-Covers offset_ms stop segments h)

-- Where `stop` is a time by which every segment of a window ends, taken to last 800 ms at least, and
-- where `stop` fits 63 bits and the length of a segment's text times its end fits 64: the cues hold
-- the cleaned words of every segment, in order, and lie between the start of the window and `stop`,
-- but for 1 ms. `stop` may be after the end of the window, by the 800 ms of a late segment.
pub cues_from_segments-Covers :
    (offset_ms stop : ℕ) (segment : TranscriptSegment) (segments : List TranscriptSegment)
    (fallback_text : Text) (window_duration_ms : ℕ)
    → All (SegmentFits offset_ms stop) (segment ∷ segments)
    → Covers offset_ms
        (stop + 1)
        (segments_ink (segment ∷ segments))
        (cues_from_segments offset_ms (segment ∷ segments) fallback_text window_duration_ms)
unfolding cues_from_segments
cues_from_segments-Covers offset_ms stop segment segments fallback_text window_duration_ms h =
    segments_cues-Covers offset_ms stop (segment ∷ segments) h
