-- ===== src/Cues/Break/Cut.antt =====
-- The place of the cut of `best_break` in backend/src/cues.rs.
use ryu_subtitles.Prelude.{
  ℕ, ◌+◌, ◌≤◌, ◌<◌, ◌≡◌, refl, sym, ap, subst, ◌∙◌, none, some, inl, inr, List, [], ◌∷◌, ◌++◌,
  append-nil, append_assoc, arith, length, length-append, take, drop, take-append-drop, length-take,
  All, Option, Option-cases,
}
use ryu_subtitles.Text.{Text, codes, byte_len, rfind, utf8_len}
use ryu_subtitles.Text.Search.{Occurs, rfind_sound, byte_len-append}
use ryu_subtitles.Cues.Break.{
  sentence_ends, clause_breaks, break_after, found_or, space_or, best_break,
}

-- `n` is the byte index behind a first part of `head` that is not empty.
abbrev pub CutsAt : Text → ℕ → Type 0
CutsAt head n = (p : Text) × (q : Text) × (head ≡ p ++ q) × (byte_len p ≡ n) × (0 < length p)

Occurs-CutsAt :
    (head pattern : Text) (i : ℕ)
    → 0 < length pattern
    → Occurs head pattern i
    → CutsAt head (i + byte_len pattern)
Occurs-CutsAt head pattern i h (before, after, e, len) = (
  before ++ pattern,
  after,
  e ∙ sym (append_assoc before pattern after),
  byte_len-append before pattern ∙ ap (λ k. k + byte_len pattern) len,
  omega (arith, length-append before pattern),
)

break_after-CutsAt :
    (patterns : List Text) (head : Text) (n : ℕ)
    → All (λ p. 0 < length p) patterns
    → break_after patterns head ≡ some n
    → CutsAt head n
unfolding break_after
break_after-CutsAt [] head n _ h = cc
break_after-CutsAt (p ∷ ps) head n (hp, hps) h = elim (Option-cases (rfind head p)) [
  | inl e ↦ break_after-CutsAt ps head n hps (ground arith)
  | inr (i, e) ↦
      subst (CutsAt head) (ground arith) (Occurs-CutsAt head p i hp (rfind_sound head p i e))
]

space_len : byte_len (codes " ") ≡ 1
unfolding byte_len utf8_len
space_len = refl

whole-CutsAt : (head : Text) → 0 < length head → CutsAt head (byte_len head)
whole-CutsAt head h = (head, [], sym (append-nil head), refl, h)

-- The last resort of `best_break`: a space, or else everything within the budget.
space-CutsAt :
    (head : Text)
    → 0 < length head
    → CutsAt head (space_or (rfind head (codes " ")) (byte_len head))
space-CutsAt head h = elim (Option-cases (rfind head (codes " "))) [
  | inl e ↦ rw e (whole-CutsAt head h)
  | inr (i, e) ↦
      rw e
        (rw space_len at (Occurs-CutsAt head (codes " ") i (omega arith) (rfind_sound head _ i e)))
]

found_or-CutsAt :
    (head : Text) (o : Option ℕ) (rest : ℕ)
    → ((n : ℕ) → o ≡ some n → CutsAt head n)
    → CutsAt head rest
    → CutsAt head (found_or o rest)
found_or-CutsAt head none rest found later = later
found_or-CutsAt head (some n) rest found later = found n refl

best_break-CutsAt :
    (text : Text) (budget : ℕ)
    → 0 < length (take budget text)
    → CutsAt (take budget text) (best_break text budget)
unfolding best_break
best_break-CutsAt text budget h =
    let head = take budget text in
    found_or-CutsAt head _ _ (λ n. break_after-CutsAt sentence_ends head n (omega arith))
      (found_or-CutsAt head _ _ (λ n. break_after-CutsAt clause_breaks head n (omega arith))
        (space-CutsAt head h))

-- A text that is longer than a positive budget is cut at the byte index that `best_break` returns,
-- which lies between two characters, behind at least one and at most `budget` of them.
pub best_break_bounds :
    (text : Text) (budget : ℕ)
    → 0 < budget
    → budget < length text
    → (p : Text) × (q : Text) × (text ≡ p ++ q)
      × (byte_len p ≡ best_break text budget)
      × (0 < length p)
      × (length p ≤ budget)
best_break_bounds text budget hb hl =
    let full = length-take budget text (omega arith) in
    let (p, q, e, len, pos) = best_break-CutsAt text budget (omega arith) in
    (
      p,
      q ++ drop budget text,
      sym (take-append-drop budget text)
          ∙ ap (λ t. t ++ drop budget text) e
          ∙ append_assoc p q (drop budget text),
      len,
      pos,
      omega (arith, ap length e, length-append p q),
    )
