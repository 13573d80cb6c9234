-- ===== src/Translate/Pass/Count.antt =====
-- The count and the cues that `translate_cues` of backend/src/translate.rs returns.
use ryu_subtitles.Prelude.{
  ℕ, ◌+◌, ◌≡◌, refl, subst, sym, Option, none, some, List, [], ◌∷◌, ◌++◌, arith, min, length, All,
  All-append, Bool-cases, inl, inr,
}
use ryu_subtitles.Text.{Text, trim, is_empty}
use ryu_subtitles.Text.Trim.{is_empty-trim, ink-trim}
use ryu_subtitles.Cues.Model.{Cue, Layout}
use ryu_subtitles.Cues.Normalize.{is_spoken}
use ryu_subtitles.Cues.Render.{render_srt}
use ryu_subtitles.Cues.Render.Shown.{Says, numbered, render_srt_all}
use ryu_subtitles.Translate.Reply.{Replies, batch_size, get}
use ryu_subtitles.Translate.Pass.{
  Outside, chunks, join_batches, set_translated, fill, Outcome, answer_batch, finish_batch,
  batches_loop, translate_cues,
}
use ryu_subtitles.Translate.Pass.Keeps.{join_batches-chunks}

-- How many cues have a translation.
abbrev pub count_one : Option Text → ℕ
count_one none = 0
count_one (some t) = 1

abbrev pub translated_count : List Cue → ℕ
translated_count [] = 0
translated_count (c ∷ cs) = count_one c.translated + translated_count cs

abbrev pub Untranslated : Cue → Type 0
Untranslated c = c.translated ≡ none

translated_count-append :
    (cs ds : List Cue) → translated_count (cs ++ ds) ≡ translated_count cs + translated_count ds
translated_count-append [] ds = omega arith
translated_count-append (c ∷ cs) ds = omega (arith, translated_count-append cs ds)

count-set_translated :
    (o : Option Text) (c : Cue)
    → Untranslated c
    → count_one (set_translated o c).0.translated ≡ (set_translated o c).1
unfolding set_translated
count-set_translated none c h = rw h
count-set_translated (some t) c h = elim (Bool-cases (is_empty (trim t))) [
  | inl e ↦ rw (e, h) refl
  | inr e ↦ rw e refl
]

count-fill :
    (got : Replies) (n : ℕ) (cs : List Cue)
    → All Untranslated cs
    → translated_count (fill got n cs).0 ≡ (fill got n cs).1
unfolding fill
count-fill got n [] h = refl
count-fill got n (c ∷ cs) (q, h) =
    omega (arith, count-set_translated (get n got) c q, count-fill got (n + 1) cs h)

All_of_append : (P : Cue → Type 0) (cs ds : List Cue) → All P (cs ++ ds) → All P cs × All P ds
All_of_append P [] ds h = (tt, h)
All_of_append P (c ∷ cs) ds (q, h) = let (a, b) = All_of_append P cs ds h in ((q, a), b)

set_translated-Says : (o : Option Text) (c : Cue) → Says c → Says (set_translated o c).0
unfolding set_translated
set_translated-Says none c h = h
set_translated-Says (some t) c h = elim (Bool-cases (is_empty (trim t))) [
  | inl e ↦ rw e h
  | inr e ↦ rw e (record {
    source = unfold is_spoken in h.source;
    target = rw (is_empty-trim, ink-trim t, rw is_empty-trim at e) refl;
  })
]

fill-Says : (got : Replies) (n : ℕ) (cs : List Cue) → All Says cs → All Says (fill got n cs).0
unfolding fill
fill-Says got n [] h = tt
fill-Says got n (c ∷ cs) (q, h) = (set_translated-Says (get n got) c q, fill-Says got (n + 1) cs h)

module _ (o : Outside) where
  -- The count of a pass that ends.
  abbrev Counts : ℕ → Outcome o → Type 0
  Counts translated r = (k : ℕ) → r.0 ≡ some k → k ≡ translated + translated_count r.1

  Counts-finish_batch :
      (answers : Option Replies) (b left : List Cue) (base total translated : ℕ) (w : o.World)
      (go : ℕ → o.World → Outcome o)
      → All Untranslated b
      → ((t : ℕ) (w' : o.World) → Counts t (go t w'))
      → Counts translated (finish_batch o answers b left base total translated w go)
  unfolding finish_batch
  Counts-finish_batch none b left base total translated w go q f k h = cc
  Counts-finish_batch (some got) b left base total translated w go q f k h =
      let filled = fill got (base + 1) b in
      let w' = o.on_progress (min (base + length b) total) total w in
      omega (
        arith,
        f (translated + filled.1) w' k h,
        translated_count-append filled.0 (go (translated + filled.1) w').1,
        count-fill got (base + 1) b q,
      )

  Counts-batches_loop :
      (bs : List (List Cue)) (base total translated : ℕ) (w : o.World)
      → All Untranslated (join_batches bs)
      → Counts translated (batches_loop o bs base total translated w)
  unfolding batches_loop join_batches
  Counts-batches_loop [] base total translated w q k h = ground arith
  Counts-batches_loop (b ∷ bs) base total translated w q k h =
      let (first, later) = All_of_append Untranslated b (join_batches bs) q in
      Counts-finish_batch (answer_batch o b base w).0 b (join_batches bs) base total translated
        (answer_batch o b base w).1 _ first
        (λ t w'. Counts-batches_loop bs (base + batch_size) total t w' later) k h

  -- A pass over cues without translations that is not canceled reports the number of the cues that
  -- it leaves with a translation.
  pub translate_cues-count :
      (cues : List Cue) (w : o.World) (k : ℕ)
      → All Untranslated cues
      → (translate_cues o cues w).0 ≡ some k
      → k ≡ translated_count (translate_cues o cues w).1
  unfolding translate_cues
  translate_cues-count cues w k q h = omega (
    arith,
    Counts-batches_loop (chunks (length cues) batch_size cues) 0 (length cues) 0 w
        (subst (All Untranslated) (sym (join_batches-chunks (length cues) 24 cues (omega arith))) q)
        k h,
  )

  Says-finish_batch :
      (answers : Option Replies) (b left : List Cue) (base total translated : ℕ) (w : o.World)
      (go : ℕ → o.World → Outcome o)
      → All Says b
      → All Says left
      → ((t : ℕ) (w' : o.World) → All Says (go t w').1)
      → All Says (finish_batch o answers b left base total translated w go).1
  unfolding finish_batch
  Says-finish_batch none b left base total translated w go q l f = All-append Says b left q l
  Says-finish_batch (some got) b left base total translated w go q l f =
      All-append Says _ _ (fill-Says got (base + 1) b q) (f _ _)

  Says-batches_loop :
      (bs : List (List Cue)) (base total translated : ℕ) (w : o.World)
      → All Says (join_batches bs)
      → All Says (batches_loop o bs base total translated w).1
  unfolding batches_loop join_batches
  Says-batches_loop [] base total translated w q = tt
  Says-batches_loop (b ∷ bs) base total translated w q =
      let (first, later) = All_of_append Says b (join_batches bs) q in
      Says-finish_batch (answer_batch o b base w).0 b (join_batches bs) base total translated
        (answer_batch o b base w).1 _ first later
        (λ t w'. Says-batches_loop bs (base + batch_size) total t w' later)

  -- Of cues that say something the pass leaves cues that do, whatever the gateway answers: in every
  -- layout the SubRip file of its cues has one block for each of them, numbered from 1.
  pub render_srt-translate_cues :
      (cues : List Cue) (w : o.World) (layout : Layout)
      → All Says cues
      → render_srt (translate_cues o cues w).1 layout
        ≡ numbered layout 1 (translate_cues o cues w).1
  unfolding translate_cues
  render_srt-translate_cues cues w layout q = render_srt_all _ layout (
      Says-batches_loop (chunks (length cues) batch_size cues) 0 (length cues) 0 w
        (subst (All Says) (sym (join_batches-chunks (length cues) 24 cues (omega arith))) q))
