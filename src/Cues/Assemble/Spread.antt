-- ===== src/Cues/Assemble/Spread.antt =====
-- The loop of `split_long` in backend/src/cues.rs, which shares out the span of a cue.
use ryu_subtitles.Prelude.{
  ℕ, ◌+◌, ◌*◌, ◌/◌, ◌≤◌, ◌<◌, ◌^◌, ◌≡◌, refl, ap, ◌⊎◌, List, [], ◌∷◌, arith, All, Chain, length,
  max, add_u64, mul_u64,
}
use ryu_subtitles.Text.{Text}
use ryu_subtitles.Cues.Model.{Cue}
use ryu_subtitles.Cues.Assemble.{part_end, spread}

abbrev pub texts : List Cue → List Text
texts [] = []
texts (c ∷ cs) = c.text ∷ texts cs

-- A cue that lies within a span, and is on screen for some time.
pub record LiesIn (start stop : ℕ) (c : Cue) : Type 0 where
  pub after : start ≤ c.start_ms
  pub before : c.end_ms ≤ stop
  pub lasts : c.start_ms < c.end_ms

-- Of two cues in a row, the second starts no earlier than the first, and at most 1 ms before the
-- first leaves.
pub record Follows (c d : Cue) : Type 0 where
  pub later : c.start_ms ≤ d.start_ms
  pub abuts : (d.start_ms ≡ c.end_ms) ⊎ (d.start_ms + 1 ≡ c.end_ms)

share-le :
    (duration total chars : ℕ)
    → chars ≤ total
    → 0 < total
    → duration * total < 2 ^ 64
    → mul_u64 duration chars / total ≤ duration
share-le duration total chars h pos fits = grind arith

-- A part that leaves where the next appears, or 1 ms later.
next-Follows :
    (c d : Cue)
    → c.start_ms ≤ d.start_ms
    → d.start_ms < 2 ^ 63
    → c.end_ms ≡ max d.start_ms (add_u64 c.start_ms 1)
    → Follows c d
next-Follows c d le room e = ground arith

module _ (cue : Cue) (duration total : ℕ) where
  pub texts-spread :
      (cursor : ℕ) (parts : List Text) → texts (spread cue duration total cursor parts) ≡ parts
  unfolding spread
  texts-spread cursor [] = refl
  texts-spread cursor (p ∷ []) = refl
  texts-spread cursor (p ∷ q ∷ ps) =
      ap (λ ts. p ∷ ts) (texts-spread (part_end cue duration total cursor p) (q ∷ ps))

  module _ (pos : 0 < total) (fits : duration * total < 2 ^ 64) (room : cue.end_ms < 2 ^ 63)
      (short : duration < 2 ^ 63) where
    part_end_bounds :
        (cursor : ℕ) (part : Text)
        → cursor ≤ cue.end_ms
        → length part ≤ total
        → (cursor ≤ part_end cue duration total cursor part)
          × (part_end cue duration total cursor part ≤ cue.end_ms)
    part_end_bounds cursor part h le =
        omega (arith, share-le duration total (length part) le pos fits)

    pub spread-LiesIn :
        (cursor : ℕ) (parts : List Text)
        → cue.start_ms ≤ cursor
        → cursor ≤ cue.end_ms
        → All (λ p. length p ≤ total) parts
        → All (LiesIn cue.start_ms (cue.end_ms + 1)) (spread cue duration total cursor parts)
    unfolding spread
    spread-LiesIn cursor [] a b h = tt
    spread-LiesIn cursor (p ∷ []) a b h = (omega arith, tt)
    spread-LiesIn cursor (p ∷ q ∷ ps) a b (hp, h) =
        let next = part_end cue duration total cursor p in
        let (lo, hi) = part_end_bounds cursor p b hp in
        (omega arith, spread-LiesIn next (q ∷ ps) (omega arith) hi h)

    pub spread-Follows :
        (cursor : ℕ) (parts : List Text)
        → cursor ≤ cue.end_ms
        → All (λ p. length p ≤ total) parts
        → Chain Follows (spread cue duration total cursor parts)
    unfolding spread
    spread-Follows cursor [] b h = tt
    spread-Follows cursor (p ∷ []) b h = tt
    spread-Follows cursor (p ∷ q ∷ []) b (hp, h) =
        let (lo, hi) = part_end_bounds cursor p b hp in (next-Follows _ _ lo (omega arith) refl, tt)
    spread-Follows cursor (p ∷ q ∷ r ∷ ps) b (hp, h) =
        let next = part_end cue duration total cursor p in
        let (lo, hi) = part_end_bounds cursor p b hp in
        (next-Follows _ _ lo (omega arith) refl, spread-Follows next (q ∷ r ∷ ps) hi h)
