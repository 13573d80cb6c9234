-- ===== src/Translate/Pass/Invariant.antt =====
-- Properties of the outside world through `translate_cues` of backend/src/translate.rs.
use ryu_subtitles.Prelude.{
  ℕ, ◌+◌, min, length, Option, none, some, List, [], ◌∷◌, Bool-cases, Option-cases, inl, inr,
}
use ryu_subtitles.Text.{Text}
use ryu_subtitles.Cues.Model.{Cue}
use ryu_subtitles.Translate.Reply.{Replies, batch_size, numbered_line, render_batch, get}
use ryu_subtitles.Translate.Pass.{
  Outside, join_batches, lone_answer, batch_answers, complete, retry, answer_batch, Outcome,
  finish_batch, batches_loop, chunks, translate_cues,
}

-- A property of the world that no call breaks.
pub record Kept (o : Outside) : Type 1 where
  pub holds : o.World → Type 0
  pub send : (user : Text) (w : o.World) → holds w → holds (o.send user w).1
  pub poll : (w : o.World) → holds w → holds (o.should_cancel w).1
  pub report : (done total : ℕ) (w : o.World) → holds w → holds (o.on_progress done total w)

module _ (o : Outside) (k : Kept o) where
  kept-complete : (user : Text) (w : o.World) → k.holds w → k.holds (complete o user w).1
  unfolding complete
  kept-complete user w h = k.send user w h

  kept-retry :
      (cs : List Cue) (n : ℕ) (got : Replies) (w : o.World)
      → k.holds w
      → k.holds (retry o cs n got w).1
  unfolding retry
  kept-retry [] n got w h = h
  kept-retry (c ∷ cs) n got w h = elim (Option-cases (get n got)) [
    | inr (text, e) ↦ rw (e, retry) (kept-retry cs (n + 1) got w h)
    | inl e ↦
        let polled = k.poll w h in
        let done = complete o (numbered_line n c.text) (o.should_cancel w).1 in
        elim (Bool-cases (o.should_cancel w).0) [
          | inl t ↦ rw (e, t, retry) polled
          | inr t ↦
              rw (e, t, retry)
                (kept-retry cs (n + 1) (lone_answer n done.0 got) done.1
                  (kept-complete (numbered_line n c.text) (o.should_cancel w).1 polled))
        ]
  ]

  kept-answer_batch :
      (b : List Cue) (base : ℕ) (w : o.World) → k.holds w → k.holds (answer_batch o b base w).1
  unfolding answer_batch
  kept-answer_batch b base w h =
      let w₁ = (o.should_cancel w).1 in
      let asked = complete o (render_batch b base) w₁ in
      let retried = retry o b (base + 1) (batch_answers asked.0) asked.1 in
      let again = o.should_cancel retried.1 in
      let polled = k.poll w h in
      let kept =
        kept-retry b (base + 1) (batch_answers asked.0) asked.1
          (kept-complete (render_batch b base) w₁ polled) in
      elim (Bool-cases (o.should_cancel w).0) [
        | inl t ↦ rw (t, answer_batch) polled
        | inr t ↦
            rw (t, answer_batch)
              (elim (Option-cases retried.0) [
                | inl e ↦ rw e kept
                | inr (got, e) ↦ elim (Bool-cases again.0) [
                  | inl u ↦ rw (e, u) (k.poll retried.1 kept)
                  | inr u ↦ rw (e, u) (k.poll retried.1 kept)
                ]
              ])
      ]

  kept-finish_batch :
      (answers : Option Replies) (b left : List Cue) (base total translated : ℕ) (w : o.World)
      (go : ℕ → o.World → Outcome o)
      → ((t : ℕ) (w' : o.World) → k.holds w' → k.holds (go t w').2)
      → k.holds w
      → k.holds (finish_batch o answers b left base total translated w go).2
  unfolding finish_batch
  kept-finish_batch none b left base total translated w go f h = h
  kept-finish_batch (some got) b left base total translated w go f h =
      f _ _ (k.report (min (base + length b) total) total w h)

  kept-batches_loop :
      (bs : List (List Cue)) (base total translated : ℕ) (w : o.World)
      → k.holds w
      → k.holds (batches_loop o bs base total translated w).2
  unfolding batches_loop
  kept-batches_loop [] base total translated w h = h
  kept-batches_loop (b ∷ bs) base total translated w h =
      kept-finish_batch (answer_batch o b base w).0 b (join_batches bs) base total translated
        (answer_batch o b base w).1 _
        (λ t w' h'. kept-batches_loop bs (base + batch_size) total t w' h')
        (kept-answer_batch b base w h)

  -- What holds of the world before the pass and through each of its calls holds behind the pass.
  pub kept-translate_cues :
      (cues : List Cue) (w : o.World) → k.holds w → k.holds (translate_cues o cues w).2
  unfolding translate_cues
  kept-translate_cues cues w h =
      kept-batches_loop (chunks (length cues) batch_size cues) 0 (length cues) 0 w h
