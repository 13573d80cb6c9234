-- ===== src/Translate/Pass/Keeps.antt =====
-- What `translate_cues` of backend/src/translate.rs keeps of the cues.
use ryu_subtitles.Prelude.{
  ℕ, zero, suc, ◌+◌, ◌≤◌, ◌≡◌, refl, sym, ap, ap₂, ◌∙◌, Option, none, some, List, [], ◌∷◌, ◌++◌,
  arith, map, map-append, length, min, take, drop, take-append-drop,
}
use ryu_subtitles.Text.{Text}
use ryu_subtitles.Cues.Model.{Cue}
use ryu_subtitles.Translate.Reply.{Replies, batch_size, get}
use ryu_subtitles.Translate.Pass.{
  Outside, chunks, join_batches, set_translated, fill, Outcome, answer_batch, finish_batch,
  batches_loop, translate_cues,
}

-- A cue without its translation: its times and what was said.
abbrev pub measured : Cue → Cue
measured c = record c { translated = none }

measured-set_translated : (o : Option Text) (c : Cue) → measured (set_translated o c).0 ≡ measured c
unfolding set_translated
measured-set_translated none c = refl
measured-set_translated (some t) c = ground arith

measured-fill :
    (got : Replies) (n : ℕ) (cs : List Cue) → map measured (fill got n cs).0 ≡ map measured cs
unfolding fill
measured-fill got n [] = refl
measured-fill got n (c ∷ cs) =
    ap₂ (λ x xs. x ∷ xs) (measured-set_translated (get n got) c) (measured-fill got (n + 1) cs)

length-drop-le : (k : ℕ) (cs : List Cue) → length (drop k cs) ≤ length cs
length-drop-le zero cs = omega arith
length-drop-le (suc k) [] = omega arith
length-drop-le (suc k) (c ∷ cs) = omega (arith, length-drop-le k cs)

pub join_batches-chunks :
    (fuel size : ℕ) (cs : List Cue)
    → length cs ≤ fuel
    → join_batches (chunks fuel (suc size) cs) ≡ cs
unfolding join_batches chunks
join_batches-chunks zero size [] h = refl
join_batches-chunks zero size (c ∷ cs) h = absurd (omega arith)
join_batches-chunks (suc fuel) size [] h = refl
join_batches-chunks (suc fuel) size (c ∷ cs) h =
    ap (λ t. c ∷ (take size cs ++ t))
      (join_batches-chunks fuel size (drop size cs) (omega (arith, length-drop-le size cs)))
    ∙ ap (λ t. c ∷ t) (take-append-drop size cs)

module _ (o : Outside) where
  measured-finish_batch :
      (answers : Option Replies) (b left : List Cue) (base total translated : ℕ) (w : o.World)
      (go : ℕ → o.World → Outcome o)
      → ((t : ℕ) (w' : o.World) → map measured (go t w').1 ≡ map measured left)
      → map measured (finish_batch o answers b left base total translated w go).1
        ≡ map measured (b ++ left)
  unfolding finish_batch
  measured-finish_batch none b left base total translated w go h = refl
  measured-finish_batch (some got) b left base total translated w go h =
      let filled = fill got (base + 1) b in
      let w' = o.on_progress (min (base + length b) total) total w in
      map-append measured filled.0 (go (translated + filled.1) w').1
      ∙ ap₂ (λ x y. x ++ y) (measured-fill got (base + 1) b) (h (translated + filled.1) w')
      ∙ sym (map-append measured b left)

  measured-batches_loop :
      (bs : List (List Cue)) (base total translated : ℕ) (w : o.World)
      → map measured (batches_loop o bs base total translated w).1 ≡ map measured (join_batches bs)
  unfolding batches_loop join_batches
  measured-batches_loop [] base total translated w = refl
  measured-batches_loop (b ∷ bs) base total translated w =
      measured-finish_batch (answer_batch o b base w).0 b (join_batches bs) base total translated
        (answer_batch o b base w).1 _
        (λ t w'. measured-batches_loop bs (base + batch_size) total t w')

  -- Whatever the gateway answers, and whether the pass ends or is canceled, the cues that it leaves
  -- are the cues it was given, in their order, with the same times and the same source text: only
  -- translations differ.
  pub translate_cues-measured :
      (cues : List Cue) (w : o.World) → map measured (translate_cues o cues w).1 ≡ map measured cues
  unfolding translate_cues
  translate_cues-measured cues w =
      measured-batches_loop (chunks (length cues) batch_size cues) 0 (length cues) 0 w
      ∙ ap (λ cs. map measured cs) (join_batches-chunks (length cues) 24 cues (omega arith))
