-- ===== src/Cues/Break/Parts.antt =====
-- The rounds and the parts of `split_text` in backend/src/cues.rs.
use ryu_subtitles.Prelude.{
  ℕ, zero, suc, ◌≤◌, ◌<◌, ◌≡◌, refl, sym, ap, ap₂, subst, ◌∙◌, false, some, inl, inr, List, [], ◌∷◌,
  ◌++◌, append-nil, arith, length, length-append, All, retain, Bool-cases, ltb, ltb→lt,
  ltb_false→le,
}
use ryu_subtitles.Text.{Text, ink, trim, trim_start, trim_end, is_empty, split_at, byte_len}
use ryu_subtitles.Text.Trim.{
  StartsInk, ink-append, ink-trim, ink-trim_start, length-trim-le, length-trim_start-le,
  trim_start-StartsInk, trim-StartsInk, trim-cons, trim-trim, trim_end-trim, trim_end_of_append,
  trim_end-trim_start, trim_end_of_StartsInk,
}
use ryu_subtitles.Text.Search.{split_at-append}
use ryu_subtitles.Cues.Break.{
  best_break, last_part, push_part, split_rounds, split_text, total_chars,
}
use ryu_subtitles.Cues.Break.Cut.{best_break_bounds}

-- The characters of the parts that are not white space.
unfoldable pub ink_parts : List Text → Text
ink_parts [] = []
ink_parts (p ∷ ps) = ink p ++ ink_parts ps

-- A part of a split: not empty, within the budget, and trimmed.
pub record IsPart (budget : ℕ) (part : Text) : Type 0 where
  pub nonempty : 0 < length part
  pub fits : length part ≤ budget
  pub trimmed : trim part ≡ part

-- The rounds return parts that hold what `rest` holds.
abbrev pub Splits : ℕ → Text → ℕ → Type 0
Splits fuel rest budget =
    (parts : List Text) × (split_rounds fuel rest budget ≡ some parts)
    × (ink_parts parts ≡ ink rest)
    × All (IsPart budget) parts
    × (total_chars parts ≤ length rest)

last_part_lem :
    (rest : Text) (budget : ℕ)
    → StartsInk rest
    → trim_end rest ≡ rest
    → length rest ≤ budget
    → (ink_parts (last_part rest) ≡ ink rest)
      × All (IsPart budget) (last_part rest)
      × (total_chars (last_part rest) ≤ length rest)
unfolding last_part ink_parts total_chars
last_part_lem [] budget starts ends fits = (unfold ink retain in refl, tt, omega arith)
last_part_lem (c ∷ s) budget starts ends fits = (
  append-nil _,
  (
    record {
      nonempty = omega arith;
      fits = fits;
      trimmed = trim_end_of_StartsInk (c ∷ s) starts ∙ ends;
    },
    tt,
  ),
  omega arith,
)

split_rounds_last :
    (fuel : ℕ) (rest : Text) (budget : ℕ)
    → ltb budget (length rest) ≡ false
    → split_rounds (suc fuel) rest budget ≡ some (last_part rest)
unfolding split_rounds
split_rounds_last fuel rest budget h = ground arith

-- One round of the loop at a text over the budget.
split_rounds_step :
    (fuel : ℕ) (rest p q : Text) (budget : ℕ)
    → budget < length rest
    → rest ≡ p ++ q
    → byte_len p ≡ best_break rest budget
    → is_empty (trim p) ≡ false
    → split_rounds (suc fuel) rest budget
      ≡ push_part (trim p) (split_rounds fuel (trim_start q) budget)
unfolding split_rounds
split_rounds_step fuel rest p q budget long e cut full =
    let split : split_at rest (best_break rest budget) ≡ some (p, q) =
      rw (← cut, e) (split_at-append p q) in
    ground (arith, split, full)

-- The first part is not blank, since the text begins with ink.
first_not_blank :
    (p q rest : Text)
    → rest ≡ p ++ q
    → StartsInk rest
    → 0 < length p
    → (is_empty (trim p) ≡ false) × (0 < length (trim p))
first_not_blank [] q rest e h pos = absurd (omega arith)
first_not_blank (c ∷ p) q rest e h pos =
    let w = subst StartsInk e h in rw (trim-cons c p w) (refl, omega arith)

ink_parts_cons :
    (p q rest : Text) (parts : List Text)
    → rest ≡ p ++ q
    → ink_parts parts ≡ ink (trim_start q)
    → ink_parts (trim p ∷ parts) ≡ ink rest
unfolding ink_parts
ink_parts_cons p q rest parts e same =
    ap₂ (λ s t. s ++ t) (ink-trim p) (same ∙ ink-trim_start q)
    ∙ sym (ink-append p q)
    ∙ ap ink (sym e)

split_rounds-Splits :
    (fuel : ℕ) (rest : Text) (budget : ℕ)
    → 0 < budget
    → StartsInk rest
    → trim_end rest ≡ rest
    → length rest < fuel
    → Splits fuel rest budget
unfolding push_part total_chars
split_rounds-Splits zero rest budget hb starts ends enough = absurd (omega arith)
split_rounds-Splits (suc fuel) rest budget hb starts ends enough =
    elim (Bool-cases (ltb budget (length rest))) [
      | inr short ↦
          let (same, parts, total) =
            last_part_lem rest budget starts ends
              (omega (arith, ltb_false→le budget (length rest))) in
          (last_part rest, split_rounds_last fuel rest budget short, same, parts, total)
      | inl long ↦
          let over = ltb→lt budget (length rest) long in
          let (p, q, e, cut, pos, fits) = best_break_bounds rest budget hb over in
          let (full, more) = first_not_blank p q rest e starts pos in
          let (parts, run, same, good, total) =
            split_rounds-Splits fuel (trim_start q) budget hb (trim_start-StartsInk q)
              (trim_end-trim_start q (trim_end_of_append p q (subst (λ t. trim_end t ≡ t) e ends)))
              (omega (arith, length-trim_start-le q, ap length e, length-append p q)) in
          (
            trim p ∷ parts,
            split_rounds_step fuel rest p q budget over e cut full ∙ ap (push_part (trim p)) run,
            ink_parts_cons p q rest parts e same,
            (
              record {
                nonempty = more;
                fits = omega (arith, length-trim-le p);
                trimmed = trim-trim p;
              },
              good,
            ),
            omega (arith, length-trim_start-le q, length-trim-le p, ap length e, length-append p q),
          )
    ]

-- `split_text` ends within its fuel and never panics: its rounds return the parts.
pub split_text-total :
    (text : Text) (budget : ℕ)
    → 0 < budget
    → split_rounds (suc (length (trim text))) (trim text) budget ≡ some (split_text text budget)
unfolding split_text
split_text-total text budget hb =
    let (parts, run, same, good, total) =
      split_rounds-Splits (suc (length (trim text))) (trim text) budget hb (trim-StartsInk text)
        (trim_end-trim text) (omega arith) in
    rw run refl

-- The parts of a split text hold all of its characters but white space, in order, and each part is
-- trimmed, not empty, and at most `budget` characters long. Together they are no longer than the text.
pub split_text_sound :
    (text : Text) (budget : ℕ)
    → 0 < budget
    → (ink_parts (split_text text budget) ≡ ink text)
      × All (IsPart budget) (split_text text budget)
      × (total_chars (split_text text budget) ≤ length text)
unfolding split_text
split_text_sound text budget hb =
    let (parts, run, same, good, total) =
      split_rounds-Splits (suc (length (trim text))) (trim text) budget hb (trim-StartsInk text)
        (trim_end-trim text) (omega arith) in
    rw run (same ∙ ink-trim text, good, omega (arith, length-trim-le text))
