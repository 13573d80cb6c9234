-- ===== src/Translate/Pass.antt =====
-- `complete` and `translate_cues` of backend/src/translate.rs. What lies outside is a parameter:
-- the gateway's answers, the poll of the job's cancellation and the progress report, each a step of
-- an outside world. The configuration and the system prompt of the job are part of `send`.
pub mod Keeps
pub mod Invariant
pub mod Count
use ryu_subtitles.Prelude.{
  ℕ, zero, suc, ◌+◌, ◌*◌, min, Bool, true, false, not, ◌&&◌, Option, none, some, List, [], ◌∷◌,
  ◌++◌, length, take, drop, leb, ltb, if◌then◌else◌,
}
use ryu_subtitles.Text.{Text, trim, is_empty}
use ryu_subtitles.Cues.Model.{Cue}
use ryu_subtitles.Translate.Reply.{
  Replies, batch_size, numbered_line, render_batch, parse_reply, single_line_fallback, get, insert,
}

pub record Outside : Type 1 where
  pub World : Type 0
  -- The status and the body of the answer to a user message; `none` is a transport error.
  pub send : Text → World → Option (ℕ × Text) × World
  -- `choices[0].message.content` of a body, empty if it is missing; `none` is no JSON.
  pub content_of : Text → Option Text
  pub should_cancel : World → Bool × World
  pub on_progress : ℕ → ℕ → World → World

-- Break the list into batches of `size`, as `chunks_mut` does; the fuel is the number of elements.
unfoldable pub chunks {ℓ} : {A : Type ℓ} → ℕ → ℕ → List A → List (List A)
chunks zero size xs = []
chunks (suc fuel) size [] = []
chunks (suc fuel) size (x ∷ xs) = take size (x ∷ xs) ∷ chunks fuel size (drop size (x ∷ xs))

unfoldable pub join_batches {ℓ} : {A : Type ℓ} → List (List A) → List A
join_batches [] = []
join_batches (b ∷ bs) = b ++ join_batches bs

-- The text of a gateway answer that `complete` accepts.
unfoldable pub accepted : (Text → Option Text) → Option (ℕ × Text) → Option Text
accepted content_of none = none
accepted content_of (some (status, body)) =
    if leb 200 status && ltb status 300
    then (elim (content_of body) [
      | none ↦ none
      | some content ↦ if is_empty (trim content) then none else some content
    ])
    else none

-- What a lone line's reply adds.
unfoldable pub lone_answer : ℕ → Option Text → Replies → Replies
lone_answer n none got = got
lone_answer n (some reply) got = elim (get n (parse_reply reply)) [
  | some text ↦ insert n text got
  | none ↦ elim (single_line_fallback reply) [ some text ↦ insert n text got | none ↦ got ]
]

unfoldable pub batch_answers : Option Text → Replies
batch_answers none = []
batch_answers (some reply) = parse_reply reply

-- The translation that a reply gives to a cue: none if the text is blank.
unfoldable pub set_translated : Option Text → Cue → Cue × ℕ
set_translated none cue = (cue, 0)
set_translated (some text) cue =
    let t = trim text in if is_empty t then (cue, 0) else (record cue { translated = some t }, 1)

-- The last loop over a batch, whose first cue has number `n`; with the number of cues translated.
unfoldable pub fill : Replies → ℕ → List Cue → List Cue × ℕ
fill got n [] = ([], 0)
fill got n (c ∷ cs) =
    let one = set_translated (get n got) c in
    let rest = fill got (n + 1) cs in (one.0 ∷ rest.0, one.1 + rest.1)

module _ (o : Outside) where
  unfoldable pub complete : Text → o.World → Option Text × o.World
  complete user w = let sent = o.send user w in (accepted o.content_of sent.0, sent.1)

  -- The retry loop over a batch; `none` is a cancellation.
  unfoldable pub retry : List Cue → ℕ → Replies → o.World → Option Replies × o.World
  retry [] n got w = (some got, w)
  retry (c ∷ cs) n got w = elim (get n got) [
    | some text ↦ retry cs (n + 1) got w
    | none ↦
        let poll = o.should_cancel w in
        elim poll.0 [
          | true ↦ (none, poll.1)
          | false ↦
              let done = complete (numbered_line n c.text) poll.1 in
              retry cs (n + 1) (lone_answer n done.0 got) done.1
        ]
  ]

  -- The result of the pass: how many lines were translated, or `none` if it was canceled; the cues
  -- as they were left.
  abbrev pub Outcome : Type 0
  Outcome = Option ℕ × List Cue × o.World

  -- The answers to a batch whose first cue has number `base + 1`, the polls around them included;
  -- `none` is a cancellation.
  unfoldable pub answer_batch : List Cue → ℕ → o.World → Option Replies × o.World
  answer_batch b base w =
      let poll = o.should_cancel w in
      elim poll.0 [
        | true ↦ (none, poll.1)
        | false ↦
            let asked = complete (render_batch b base) poll.1 in
            let retried = retry b (base + 1) (batch_answers asked.0) asked.1 in
            let again = o.should_cancel retried.1 in
            elim retried.0 [
              | none ↦ (none, retried.1)
              | some got ↦ elim again.0 [ true ↦ (none, again.1) | false ↦ (some got, again.1) ]
            ]
      ]

  -- What a batch's answers lead to: the batch is filled and `go` treats the batches behind it, or
  -- the pass ends with `left` as it is.
  unfoldable pub finish_batch :
      Option Replies
      → (b : List Cue) (left : List Cue) (base total translated : ℕ) → o.World
      → (ℕ → o.World → Outcome)
      → Outcome
  finish_batch none b left base total translated w go = (none, b ++ left, w)
  finish_batch (some got) b left base total translated w go =
      let filled = fill got (base + 1) b in
      let rest = go (translated + filled.1) (o.on_progress (min (base + length b) total) total w) in
      (rest.0, filled.0 ++ rest.1, rest.2)

  unfoldable pub batches_loop : List (List Cue) → ℕ → ℕ → ℕ → o.World → Outcome
  batches_loop [] base total translated w = (some translated, [], w)
  batches_loop (b ∷ bs) base total translated w =
      let answers = answer_batch b base w in
      finish_batch answers.0 b (join_batches bs) base total translated answers.1
        (λ t w'. batches_loop bs (base + batch_size) total t w')

  unfoldable pub translate_cues : List Cue → o.World → Outcome
  translate_cues cues w = batches_loop (chunks (length cues) batch_size cues) 0 (length cues) 0 w
