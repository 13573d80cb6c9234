-- ===== src/Translate/Reply/Lines.antt =====
-- `parse_reply` of backend/src/translate.rs on lines in the form that `render_batch` writes.
use ryu_subtitles.Prelude.{
  ℕ, ◌+◌, ◌-◌, ◌*◌, ◌^◌, ◌≤◌, ◌<◌, ◌≡◌, refl, sym, ap, subst, ◌∙◌, true, false, some, [], ◌∷◌, ◌++◌,
  append-nil, arith, All, Bool-cases, inl, inr,
}
use ryu_subtitles.Text.{Text, trim, trim_start, trim_end, keep_end, is_whitespace, is_empty}
use ryu_subtitles.Text.Trim.{trim_end-cons, trim-cons, trim_end-trim_end}
use ryu_subtitles.Cues.Timestamp.Read.{IsDigit, value, value-decimal, digits-decimal, decimal-cons}
use ryu_subtitles.Translate.Reply.{
  marker, numbered_line, cons_head, split_once, is_bullet, trim_bullets, parse_digits, parse_usize,
  read_parts, read_text, parse_line,
}

digit_not_whitespace : (c : ℕ) → IsDigit c → is_whitespace c ≡ false
unfolding is_whitespace
digit_not_whitespace c h = ground arith

digit_not_bullet : (c : ℕ) → IsDigit c → is_bullet c ≡ false
unfolding is_bullet
digit_not_bullet c h = ground arith

-- Digits in front of a text do not take part in its trimming.
trim_end-digits : (ds rest : Text) → All IsDigit ds → trim_end (ds ++ rest) ≡ ds ++ trim_end rest
trim_end-digits [] rest h = refl
trim_end-digits (c ∷ ds) rest (d, h) =
    trim_end-cons c (ds ++ rest) (digit_not_whitespace c d)
    ∙ ap (λ t. c ∷ t) (trim_end-digits ds rest h)

trim-digits :
    (c : ℕ) (ds rest : Text)
    → All IsDigit (c ∷ ds)
    → trim (c ∷ (ds ++ rest)) ≡ c ∷ (ds ++ trim_end rest)
trim-digits c ds rest (d, h) =
    trim-cons c (ds ++ rest) (digit_not_whitespace c d)
    ∙ ap (λ t. c ∷ t) (trim_end-digits ds rest h)

split_once-digits :
    (ds rest : Text) → All IsDigit ds → split_once (ds ++ marker ∷ rest) marker ≡ some (ds, rest)
unfolding split_once cons_head
split_once-digits [] rest h = refl
split_once-digits (c ∷ ds) rest ((l, u), h) = ground (arith, split_once-digits ds rest h)

value-le : (ds : Text) (n : ℕ) → n ≤ value n ds
value-le [] n = omega arith
value-le (c ∷ ds) n = omega (arith, value-le ds (n * 10 + (c - b'0')))

parse_digits-value :
    (ds : Text) (n : ℕ)
    → All IsDigit ds
    → value n ds < 2 ^ 64
    → parse_digits ds n ≡ some (value n ds)
unfolding parse_digits
parse_digits-value [] n h k = refl
parse_digits-value (c ∷ ds) n ((l, u), h) k =
    ground
      (arith, value-le ds (n * 10 + (c - b'0')), parse_digits-value ds (n * 10 + (c - b'0')) h k)

parse_usize-digits :
    (c : ℕ) (ds : Text)
    → All IsDigit (c ∷ ds)
    → value 0 (c ∷ ds) < 2 ^ 64
    → parse_usize (c ∷ ds) ≡ some (value 0 (c ∷ ds))
unfolding parse_usize
parse_usize-digits c [] h k = parse_digits-value (c ∷ []) 0 h k
parse_usize-digits c (d ∷ ds) ((l, u), h) k =
    ground (arith, parse_digits-value (c ∷ d ∷ ds) 0 ((l, u), h) k)

trim-keep_end : (c : ℕ) (s : Text) → is_whitespace c ≡ true → trim (keep_end c s) ≡ trim s
unfolding trim trim_start keep_end
trim-keep_end c [] w = rw w refl
trim-keep_end c (d ∷ s) w = rw w refl

trim-space : (c : ℕ) (s : Text) → is_whitespace c ≡ true → trim (c ∷ s) ≡ trim s
unfolding trim trim_start
trim-space c s w = rw w refl

-- Trimming the end first makes no difference.
trim-trim_end : (s : Text) → trim (trim_end s) ≡ trim s
unfolding trim_end
trim-trim_end [] = refl
trim-trim_end (c ∷ s) = elim (Bool-cases (is_whitespace c)) [
  | inl w ↦ trim-keep_end c (trim_end s) w ∙ trim-trim_end s ∙ sym (trim-space c s w)
  | inr w ↦
      ap trim (trim_end-cons c s w)
      ∙ trim-cons c (trim_end s) w
      ∙ ap (λ t. c ∷ t) (trim_end-trim_end s)
      ∙ sym (trim-cons c s w)
]

head-digits :
    (c : ℕ) (ds : Text) → All IsDigit (c ∷ ds) → trim (trim_bullets (trim (c ∷ ds))) ≡ c ∷ ds
unfolding trim_bullets
head-digits c ds (d, h) =
    let same : trim (c ∷ ds) ≡ c ∷ ds =
      subst (λ t. trim (c ∷ t) ≡ c ∷ t) (append-nil ds)
        (trim-digits c ds [] (d, h) ∙ ap (λ t. c ∷ (ds ++ t)) (unfold trim_end in refl)) in
    rw (same, digit_not_bullet c d) same

parse_line-digits :
    (c : ℕ) (ds text : Text)
    → All IsDigit (c ∷ ds)
    → value 0 (c ∷ ds) < 2 ^ 64
    → is_empty (trim text) ≡ false
    → parse_line (c ∷ (ds ++ marker ∷ b' ' ∷ text)) ≡ some (value 0 (c ∷ ds), trim text)
unfolding parse_line read_parts read_text
parse_line-digits c ds text h k l =
    let tail = trim_end (b' ' ∷ text) in
    let line : trim (c ∷ (ds ++ marker ∷ b' ' ∷ text)) ≡ c ∷ (ds ++ marker ∷ tail) =
      trim-digits c ds (marker ∷ b' ' ∷ text) h
      ∙ ap (λ t. c ∷ (ds ++ t))
          (trim_end-cons marker (b' ' ∷ text) (unfold is_whitespace in refl)) in
    let said : trim tail ≡ trim text =
      trim-trim_end (b' ' ∷ text) ∙ trim-space (b' ') text (unfold is_whitespace in refl) in
    ap (λ t. read_parts (split_once t marker)) line
    ∙ ap read_parts (split_once-digits (c ∷ ds) tail h)
    ∙ ap (λ t. read_text (parse_usize t) tail) (head-digits c ds h)
    ∙ ap (λ o. read_text o tail) (parse_usize-digits c ds h k)
    ∙ rw (said, l) refl

-- A line of a reply that repeats a number of 64 bits with a text that is not blank is read as that
-- number and the trimmed text.
pub parse_line-numbered_line :
    (n : ℕ) (text : Text)
    → n < 2 ^ 64
    → is_empty (trim text) ≡ false
    → parse_line (numbered_line n text) ≡ some (n, trim text)
unfolding numbered_line
parse_line-numbered_line n text h k =
    let (c, ds, e) = decimal-cons n in
    let digits = subst (All IsDigit) e (digits-decimal n) in
    let spelled : value 0 (c ∷ ds) ≡ n = subst (λ s. value 0 s ≡ n) e (value-decimal n) in
    subst (λ s. parse_line (s ++ marker ∷ b' ' ∷ text) ≡ some (n, trim text)) (sym e)
      (subst (λ m. parse_line (c ∷ (ds ++ marker ∷ b' ' ∷ text)) ≡ some (m, trim text)) spelled
        (parse_line-digits c ds text digits (omega arith) k))
