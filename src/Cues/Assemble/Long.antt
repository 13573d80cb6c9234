-- ===== src/Cues/Assemble/Long.antt =====
-- The result of `split_long` in backend/src/cues.rs as a whole.
use ryu_subtitles.Prelude.{
  ℕ, ◌+◌, ◌-◌, ◌*◌, ◌≤◌, ◌<◌, ◌^◌, ◌≡◌, ap, ◌∙◌, List, [], ◌∷◌, append-nil, arith, All, All_mono,
  Chain, length, length-append, max, leb, ◌&&◌, Bool-cases, inl, inr, saturating_sub, leb→le,
}
use ryu_subtitles.Text.{Text, ink}
use ryu_subtitles.Text.Trim.{length-ink-le}
use ryu_subtitles.Cues.Model.{Cue, max_line_chars, max_lines, max_cue_ms}
use ryu_subtitles.Cues.Break.{split_text, total_chars}
use ryu_subtitles.Cues.Break.Parts.{ink_parts, IsPart, split_text_sound}
use ryu_subtitles.Cues.Assemble.{spread, split_long}
use ryu_subtitles.Cues.Assemble.Spread.{
  texts, LiesIn, Follows, texts-spread, spread-LiesIn, spread-Follows,
}

-- A cue whose share computations stay within 64 bits.
pub record SpanFits (cue : Cue) : Type 0 where
  pub lasts : cue.start_ms < cue.end_ms
  pub room : cue.end_ms < 2 ^ 63
  pub product : (cue.end_ms - cue.start_ms) * (length cue.text + 1) < 2 ^ 64

-- The cues hold the words of `cue`, each at most two lines' worth of them, and lie in its span one
-- after the other, but for 1 ms.
pub record SplitsInto (cue : Cue) (cues : List Cue) : Type 0 where
  pub words : ink_parts (texts cues) ≡ ink cue.text
  pub budget : All (λ c. length (ink c.text) ≤ max_line_chars * max_lines) cues
  pub inside : All (LiesIn cue.start_ms (cue.end_ms + 1)) cues
  pub order : Chain Follows cues

whole-SplitsInto :
    (cue : Cue)
    → SpanFits cue
    → length (ink cue.text) ≤ max_line_chars * max_lines
    → SplitsInto cue (cue ∷ [])
unfolding ink_parts
whole-SplitsInto cue fits short = record {
  words = append-nil (ink cue.text);
  budget = (short, tt);
  inside = (record { after = omega arith; before = omega arith; lasts = fits.lasts }, tt);
  order = tt;
}

few_parts :
    (parts : List Text) (budget : ℕ)
    → length parts ≤ 1
    → All (IsPart budget) parts
    → length (ink_parts parts) ≤ budget
unfolding ink_parts
few_parts [] budget few h = omega arith
few_parts (p ∷ []) budget few (hp, h) =
    omega (arith, length-append (ink p) [], length-ink-le p, hp.fits)
few_parts (p ∷ q ∷ ps) budget few h = absurd (omega arith)

parts-le-total : (parts : List Text) → All (λ p. length p ≤ total_chars parts) parts
unfolding total_chars
parts-le-total [] = tt
parts-le-total (p ∷ ps) = (omega arith, All_mono (λ q h. omega arith) ps (parts-le-total ps))

texts-All : (P : Text → Type 0) (cues : List Cue) → All P (texts cues) → All (λ c. P c.text) cues
texts-All P [] h = tt
texts-All P (c ∷ cs) (p, h) = (p, texts-All P cs h)

mul-le-mul_left : (d t c : ℕ) → t ≤ c → d * t ≤ d * c
mul-le-mul_left d t c h = grind arith

product_fits :
    (duration total chars : ℕ)
    → total ≤ chars
    → duration * (chars + 1) < 2 ^ 64
    → duration * max total 1 < 2 ^ 64
product_fits duration total chars le fits =
    omega (arith, mul-le-mul_left duration (max total 1) (chars + 1) (omega arith))

spread-SplitsInto :
    (cue : Cue) (parts : List Text)
    → SpanFits cue
    → ink_parts parts ≡ ink cue.text
    → All (IsPart (max_line_chars * max_lines)) parts
    → total_chars parts ≤ length cue.text
    → SplitsInto cue (
        spread cue
          (saturating_sub cue.end_ms cue.start_ms)
          (max (total_chars parts) 1)
          cue.start_ms
          parts)
spread-SplitsInto cue parts fits words good le =
    let duration = saturating_sub cue.end_ms cue.start_ms in
    let total = max (total_chars parts) 1 in
    let same = texts-spread cue duration total cue.start_ms parts in
    let product = product_fits duration (total_chars parts) (length cue.text) le fits.product in
    let each : All (λ p. length p ≤ total) parts =
      All_mono (λ p h. omega arith) parts (parts-le-total parts) in
    let small : All (λ p. length (ink p) ≤ max_line_chars * max_lines) parts =
      All_mono (λ p h. omega (arith, length-ink-le p, h.fits)) parts good in
    record {
      words = ap ink_parts same ∙ words;
      budget = texts-All (λ t. length (ink t) ≤ max_line_chars * max_lines) _ (rw same small);
      inside =
          spread-LiesIn cue duration total (omega arith) product (omega arith) (omega arith)
            cue.start_ms parts (omega arith) (omega arith) each;
      order =
          spread-Follows cue duration total (omega arith) product (omega arith) (omega arith)
            cue.start_ms parts (omega arith) each;
    }

-- A cue that ends after it starts and whose times and products fit 64 bits is split into cues that
-- hold its words, in each no more characters that are not blank than two lines have, that lie in its
-- span but for 1 ms at the end, each on screen for some time, and that follow each other with an
-- overlap of at most 1 ms.
pub split_long-SplitsInto : (cue : Cue) → SpanFits cue → SplitsInto cue (split_long cue)
unfolding split_long
split_long-SplitsInto cue fits =
    let budget = max_line_chars * max_lines in
    let parts = split_text cue.text budget in
    let duration = saturating_sub cue.end_ms cue.start_ms in
    let (words, good, total) = split_text_sound cue.text budget (omega arith) in
    elim (Bool-cases (leb (length cue.text) budget && leb duration max_cue_ms)) [
      | inl short ↦ rw short (whole-SplitsInto cue fits (ground (arith, length-ink-le cue.text)))
      | inr long ↦ elim (Bool-cases (leb (length parts) 1)) [
        | inl few ↦
            rw (long, few)
              (whole-SplitsInto cue fits
                (rw (← words) (few_parts parts budget (leb→le (length parts) 1 few) good)))
        | inr many ↦ rw (long, many) (spread-SplitsInto cue parts fits words good total)
      ]
    ]
