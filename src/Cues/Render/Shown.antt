-- ===== src/Cues/Render/Shown.antt =====
-- Which cues a rendered file shows, and how SubRip numbers them.
use ryu_subtitles.Prelude.{
  ℕ, ◌+◌, ◌≡◌, refl, ap, ◌∙◌, Bool, true, not, Option, none, some, List, [], ◌∷◌, ◌++◌, arith, All,
  retain, retain_all, All_mono,
}
use ryu_subtitles.Text.{Text, ink, is_empty, trim}
use ryu_subtitles.Text.Trim.{is_empty-trim, ink-append}
use ryu_subtitles.Cues.Model.{Cue, Layout}
use ryu_subtitles.Cues.Break.{wrap}
use ryu_subtitles.Cues.Break.Wrap.{ink-wrap}
use ryu_subtitles.Cues.Normalize.{is_spoken}
use ryu_subtitles.Cues.Normalize.Stable.{IsSpoken}
use ryu_subtitles.Cues.Render.{
  lay_out, wrap_translated, rendered, srt_block, srt_blocks, render_srt,
}

abbrev pub is_shown : Layout → Cue → Bool
is_shown layout cue = not (is_empty (trim (rendered cue layout)))

-- The cues of a file one after the other, numbered from `index`.
pub numbered : Layout → ℕ → List Cue → Text
numbered layout index [] = []
numbered layout index (c ∷ cs) =
    srt_block index c (rendered c layout) ++ numbered layout (index + 1) cs

srt_blocks-numbered :
    (layout : Layout) (index : ℕ) (cs : List Cue)
    → srt_blocks layout index cs ≡ numbered layout index (retain (is_shown layout) cs)
unfolding srt_blocks numbered retain
srt_blocks-numbered layout index [] = refl
srt_blocks-numbered layout index (c ∷ cs) =
    ground (arith, srt_blocks-numbered layout index cs, srt_blocks-numbered layout (index + 1) cs)

-- A SubRip file numbers the cues that it shows from 1, with no gap for those that it leaves out.
pub render_srt-numbered :
    (cues : List Cue) (layout : Layout)
    → render_srt cues layout ≡ numbered layout 1 (retain (is_shown layout) cues)
unfolding render_srt
render_srt-numbered cues layout = srt_blocks-numbered layout 1 cues

abbrev has_ink : Text → Bool
has_ink s = not (is_empty (ink s))

has_ink-append : (s t : Text) → has_ink s ≡ true → has_ink (s ++ t) ≡ true
has_ink-append s t h = rw (ink-append s t) (front (ink s) h)
  where
    front : (u : Text) → not (is_empty u) ≡ true → not (is_empty (u ++ ink t)) ≡ true
    front [] e = cc
    front (c ∷ u) e = refl

has_ink-wrap : (s : Text) → has_ink s ≡ true → has_ink (wrap s) ≡ true
has_ink-wrap s h = rw (ink-wrap s) h

-- A cue that says something, in its translation too, where it has one.
abbrev translation_says : Option Text → Bool
translation_says none = true
translation_says (some t) = not (is_empty (trim t))

pub record Says (c : Cue) : Type 0 where
  pub source : IsSpoken c
  pub target : translation_says c.translated ≡ true

has_ink-lay_out :
    (layout : Layout) (source : Text) (translated : Option Text)
    → has_ink source ≡ true
    → translation_says translated ≡ true
    → has_ink (lay_out layout (wrap source) (wrap_translated translated)) ≡ true
unfolding lay_out
has_ink-lay_out Layout.translated source (some t) h k = has_ink-wrap t (rw is_empty-trim at k)
has_ink-lay_out Layout.translated source none h k = has_ink-wrap source h
has_ink-lay_out Layout.source source translated h k = has_ink-wrap source h
has_ink-lay_out Layout.bilingual source (some t) h k =
    has_ink-append (wrap t) _ (has_ink-wrap t (rw is_empty-trim at k))
has_ink-lay_out Layout.bilingual source none h k = has_ink-wrap source h

Says-is_shown : (layout : Layout) (c : Cue) → Says c → is_shown layout c ≡ true
unfolding rendered is_spoken
Says-is_shown layout c h =
    rw is_empty-trim
      (has_ink-lay_out layout c.text c.translated (rw is_empty-trim at h.source) h.target)

-- Cues that say something, in their translation too where they have one, are all shown: in every
-- layout the SubRip file has one block for each of them, numbered from 1.
pub render_srt_all :
    (cues : List Cue) (layout : Layout)
    → All Says cues
    → render_srt cues layout ≡ numbered layout 1 cues
render_srt_all cues layout h =
    render_srt-numbered cues layout
    ∙ ap (numbered layout 1)
        (retain_all (is_shown layout) cues (All_mono (Says-is_shown layout) cues h))
