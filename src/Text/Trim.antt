-- ===== src/Text/Trim.antt =====
-- White space at the ends of a text.
use ryu_subtitles.Prelude.{
  ◌≤◌, ◌≡◌, refl, sym, ap, ◌∙◌, false, inl, inr, [], ◌∷◌, ◌++◌, arith, length, retain, Bool-cases,
}
use ryu_subtitles.Text.{Text, is_whitespace, trim_start, keep_end, trim_end, trim, ink, is_empty}

pub ink-append : (s t : Text) → ink (s ++ t) ≡ ink s ++ ink t
unfolding ink retain
ink-append [] t = refl
ink-append (c ∷ s) t = ground (arith, ink-append s t)

pub length-ink-le : (s : Text) → length (ink s) ≤ length s
unfolding ink retain
length-ink-le [] = omega arith
length-ink-le (c ∷ s) = ground (arith, length-ink-le s)

pub ink-trim_start : (s : Text) → ink (trim_start s) ≡ ink s
unfolding trim_start ink retain
ink-trim_start [] = refl
ink-trim_start (c ∷ s) = ground (arith, ink-trim_start s)

ink-keep_end : (c : _) (s : Text) → ink (keep_end c s) ≡ ink (c ∷ s)
unfolding keep_end ink retain
ink-keep_end c [] = ground arith
ink-keep_end c (d ∷ s) = refl

pub ink-trim_end : (s : Text) → ink (trim_end s) ≡ ink s
unfolding trim_end ink retain
ink-trim_end [] = refl
ink-trim_end (c ∷ s) = ground (arith, ink-keep_end c (trim_end s), ink-trim_end s)

-- What trimming leaves has the same characters that are not white space, in the same order.
pub ink-trim : (s : Text) → ink (trim s) ≡ ink s
unfolding trim
ink-trim s = ink-trim_end (trim_start s) ∙ ink-trim_start s

pub length-trim_start-le : (s : Text) → length (trim_start s) ≤ length s
unfolding trim_start
length-trim_start-le [] = omega arith
length-trim_start-le (c ∷ s) = ground (arith, length-trim_start-le s)

pub length-trim_end-le : (s : Text) → length (trim_end s) ≤ length s
unfolding trim_end keep_end
length-trim_end-le [] = omega arith
length-trim_end-le (c ∷ s) = ground (arith, length-trim_end-le s)

pub length-trim-le : (s : Text) → length (trim s) ≤ length s
unfolding trim
length-trim-le s = omega (arith, length-trim_end-le (trim_start s), length-trim_start-le s)

-- A text that is empty or begins with a character that is not white space.
abbrev pub StartsInk : Text → Type 0
StartsInk [] = Unit
StartsInk (c ∷ s) = is_whitespace c ≡ false

pub trim_start-StartsInk : (s : Text) → StartsInk (trim_start s)
unfolding trim_start
trim_start-StartsInk [] = tt
trim_start-StartsInk (c ∷ s) = elim (Bool-cases (is_whitespace c)) [
  | inl w ↦ rw w (trim_start-StartsInk s)
  | inr w ↦ rw w w
]

pub trim_start_lem : (s : Text) → StartsInk s → trim_start s ≡ s
unfolding trim_start
trim_start_lem [] h = refl
trim_start_lem (c ∷ s) h = rw h

pub trim_end-cons : (c : _) (s : Text) → is_whitespace c ≡ false → trim_end (c ∷ s) ≡ c ∷ trim_end s
unfolding trim_end keep_end
trim_end-cons c s h = ground arith

pub trim_end-StartsInk : (s : Text) → StartsInk s → StartsInk (trim_end s)
trim_end-StartsInk [] h = unfold trim_end in tt
trim_end-StartsInk (c ∷ s) h = rw (trim_end-cons c s h) h

pub trim-StartsInk : (s : Text) → StartsInk (trim s)
unfolding trim
trim-StartsInk s = trim_end-StartsInk (trim_start s) (trim_start-StartsInk s)

-- A text that begins with a character that is not white space is not trimmed to nothing.
pub trim-cons : (c : _) (s : Text) → is_whitespace c ≡ false → trim (c ∷ s) ≡ c ∷ trim_end s
unfolding trim trim_start
trim-cons c s h = rw h (trim_end-cons c s h)

trim_end-keep_end : (c : _) (s : Text) → trim_end s ≡ s → trim_end (keep_end c s) ≡ keep_end c s
unfolding trim_end keep_end
trim_end-keep_end c [] h = ground arith
trim_end-keep_end c (d ∷ s) h = ground arith

pub trim_end-trim_end : (s : Text) → trim_end (trim_end s) ≡ trim_end s
unfolding trim_end
trim_end-trim_end [] = refl
trim_end-trim_end (c ∷ s) = trim_end-keep_end c (trim_end s) (trim_end-trim_end s)

pub trim_end_of_StartsInk : (s : Text) → StartsInk s → trim s ≡ trim_end s
unfolding trim
trim_end_of_StartsInk s h = ap trim_end (trim_start_lem s h)

pub trim_end-trim : (s : Text) → trim_end (trim s) ≡ trim s
unfolding trim
trim_end-trim s = trim_end-trim_end (trim_start s)

-- Trimming twice is trimming once.
pub trim-trim : (s : Text) → trim (trim s) ≡ trim s
trim-trim s = trim_end_of_StartsInk (trim s) (trim-StartsInk s) ∙ trim_end-trim s

pub trim_end_of_cons : (c : _) (s : Text) → trim_end (c ∷ s) ≡ c ∷ s → trim_end s ≡ s
unfolding trim_end keep_end
trim_end_of_cons c s h = ground arith

-- What ends a text that is trimmed at its end is trimmed at its end.
pub trim_end_of_append : (p q : Text) → trim_end (p ++ q) ≡ p ++ q → trim_end q ≡ q
trim_end_of_append [] q h = h
trim_end_of_append (c ∷ p) q h = trim_end_of_append p q (trim_end_of_cons c (p ++ q) h)

pub trim_end-trim_start : (s : Text) → trim_end s ≡ s → trim_end (trim_start s) ≡ trim_start s
unfolding trim_start
trim_end-trim_start [] h = unfold trim_end in refl
trim_end-trim_start (c ∷ s) h = elim (Bool-cases (is_whitespace c)) [
  | inl w ↦ rw w (trim_end-trim_start s (trim_end_of_cons c s h))
  | inr w ↦ rw w h
]

is_empty-ink : (s : Text) → StartsInk s → is_empty (ink s) ≡ is_empty s
unfolding ink retain
is_empty-ink [] h = refl
is_empty-ink (c ∷ s) h = rw h

-- A text is blank exactly when it holds no ink.
pub is_empty-trim : (s : Text) → is_empty (trim s) ≡ is_empty (ink s)
is_empty-trim s = sym (is_empty-ink (trim s) (trim-StartsInk s)) ∙ ap is_empty (ink-trim s)
