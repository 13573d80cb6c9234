-- ===== src/Cues/Timestamp/Read.antt =====
-- Reading a decimal number and a timestamp back.
use ryu_subtitles.Prelude.{
  ℕ, zero, suc, ◌+◌, ◌-◌, ◌*◌, ◌/◌, ◌%◌, ◌≤◌, ◌<◌, ◌≡◌, refl, ap, ◌∙◌, [], ◌∷◌, ◌++◌, arith, All,
  length, ltb, Bool-cases, inl, inr, ltb→lt, ltb_false→le,
}
use ryu_subtitles.Text.{Text}
use ryu_subtitles.Cues.Timestamp.{push_digits, decimal, decimal2, decimal3, timestamp}

abbrev pub IsDigit : ℕ → Type 0
IsDigit c = (b'0' ≤ c) × (c ≤ b'9')

-- The number that digits spell behind `n`.
abbrev pub value : ℕ → Text → ℕ
value n [] = n
value n (c ∷ s) = value (n * 10 + (c - b'0')) s

push_digits_last :
    (fuel n : ℕ) (out : Text) → n < 10 → push_digits (suc fuel) n out ≡ (b'0' + n) ∷ out
unfolding push_digits
push_digits_last fuel n out h = ground arith

push_digits_more :
    (fuel n : ℕ) (out : Text)
    → 10 ≤ n
    → push_digits (suc fuel) n out ≡ push_digits fuel (n / 10) ((b'0' + n % 10) ∷ out)
unfolding push_digits
push_digits_more fuel n out h = ground arith

value-push_digits :
    (fuel n : ℕ) (out : Text) → n < fuel → value 0 (push_digits fuel n out) ≡ value n out
value-push_digits zero n out h = absurd (omega arith)
value-push_digits (suc fuel) n out h = elim (Bool-cases (ltb n 10)) [
  | inl small ↦
      ap (value 0) (push_digits_last fuel n out (ltb→lt n 10 small))
      ∙ ap (λ m. value m out) (omega arith)
  | inr large ↦
      let le = ltb_false→le n 10 large in
      ap (value 0) (push_digits_more fuel n out le)
      ∙ value-push_digits fuel (n / 10) ((b'0' + n % 10) ∷ out) (omega arith)
      ∙ ap (λ m. value m out) (omega arith)
]

push_digits-IsDigit :
    (fuel n : ℕ) (out : Text) → All IsDigit out → All IsDigit (push_digits fuel n out)
push_digits-IsDigit zero n out h = unfold push_digits in h
push_digits-IsDigit (suc fuel) n out h = elim (Bool-cases (ltb n 10)) [
  | inl small ↦ let lt = ltb→lt n 10 small in rw (push_digits_last fuel n out lt) (omega arith, h)
  | inr large ↦
      rw (push_digits_more fuel n out (ltb_false→le n 10 large))
        (push_digits-IsDigit fuel (n / 10) ((b'0' + n % 10) ∷ out) (omega arith, h))
]

pub digits-decimal : (n : ℕ) → All IsDigit (decimal n)
unfolding decimal
digits-decimal n = push_digits-IsDigit (suc n) n [] tt

digits-decimal2 : (n : ℕ) → All IsDigit (decimal2 n)
unfolding decimal2
digits-decimal2 n = ground (arith, digits-decimal n)

digits-decimal3 : (n : ℕ) → All IsDigit (decimal3 n)
unfolding decimal3
digits-decimal3 n = ground (arith, digits-decimal n, digits-decimal2 n)

length-push_digits : (fuel n : ℕ) (out : Text) → length out ≤ length (push_digits fuel n out)
unfolding push_digits
length-push_digits zero n out = omega arith
length-push_digits (suc fuel) n out =
    ground (arith, length-push_digits fuel (n / 10) ((b'0' + n % 10) ∷ out))

-- A number that is printed in decimal is read back.
pub value-decimal : (n : ℕ) → value 0 (decimal n) ≡ n
unfolding decimal
value-decimal n = value-push_digits (suc n) n [] (omega arith)

length-decimal_one : (n : ℕ) → n < 10 → length (decimal n) ≡ 1
unfolding decimal
length-decimal_one n h = ap length (push_digits_last n n [] h)

digits_two : (fuel n : ℕ) → 10 ≤ n → n < 100 → 1 ≤ fuel → length (push_digits (suc fuel) n []) ≡ 2
digits_two zero n h k l = absurd (omega arith)
digits_two (suc fuel) n h k l =
    ap length (push_digits_more (suc fuel) n [] h ∙ push_digits_last fuel (n / 10) _ (omega arith))

digits_three :
    (fuel n : ℕ) → 100 ≤ n → n < 1000 → 2 ≤ fuel → length (push_digits (suc fuel) n []) ≡ 3
digits_three zero n h k l = absurd (omega arith)
digits_three (suc zero) n h k l = absurd (omega arith)
digits_three (suc (suc fuel)) n h k l = ap length (
    push_digits_more (suc (suc fuel)) n [] (omega arith)
    ∙ push_digits_more (suc fuel) (n / 10) _ (omega arith)
    ∙ push_digits_last fuel (n / 10 / 10) _ (omega arith))

length-decimal2 : (n : ℕ) → n < 100 → length (decimal2 n) ≡ 2
unfolding decimal2 decimal
length-decimal2 n h = ground (arith, length-decimal_one n, digits_two n n)

length-decimal3 : (n : ℕ) → n < 1000 → length (decimal3 n) ≡ 3
unfolding decimal3 decimal
length-decimal3 n h = ground (arith, length-decimal2 n, digits_three n n)

value-decimal2 : (n : ℕ) → value 0 (decimal2 n) ≡ n
unfolding decimal2
value-decimal2 n = ground (arith, value-decimal n)

value-decimal3 : (n : ℕ) → value 0 (decimal3 n) ≡ n
unfolding decimal3
value-decimal3 n = ground (arith, value-decimal n, value-decimal2 n)

-- What a timestamp spells: digits for the hours, two for the minutes, two for the seconds, and
-- three for the milliseconds, which add up to `ms`.
pub record Reads (ms sep : ℕ) (s : Text) : Type 0 where
  pub hours : Text
  pub minutes : Text
  pub seconds : Text
  pub millis : Text
  pub spelled : s ≡ hours ++ b':' ∷ (minutes ++ b':' ∷ (seconds ++ sep ∷ millis))
  pub widths :
      (2 ≤ length hours) × (length minutes ≡ 2) × (length seconds ≡ 2) × (length millis ≡ 3)
  pub digits : All IsDigit hours × All IsDigit minutes × All IsDigit seconds × All IsDigit millis
  pub bounds : (value 0 minutes < 60) × (value 0 seconds < 60)
  pub total :
      value 0 hours * 3600000 + value 0 minutes * 60000 + value 0 seconds * 1000 + value 0 millis
      ≡ ms

length-push_digits-suc :
    (fuel n : ℕ) (out : Text) → suc (length out) ≤ length (push_digits (suc fuel) n out)
unfolding push_digits
length-push_digits-suc fuel n out =
    ground (arith, length-push_digits fuel (n / 10) ((b'0' + n % 10) ∷ out))

two-le-decimal2 : (n : ℕ) → 2 ≤ length (decimal2 n)
unfolding decimal2 decimal
two-le-decimal2 zero = unfold push_digits in omega arith
two-le-decimal2 (suc n) = ground (
  arith,
  length-decimal_one (suc n),
  push_digits_more (suc n) (suc n) [],
  length-push_digits-suc n (suc n / 10) ((b'0' + suc n % 10) ∷ []),
)

-- A number has a digit.
pub decimal-cons : (n : ℕ) → (c : ℕ) × (ds : Text) × (decimal n ≡ c ∷ ds)
unfolding decimal
decimal-cons n = first (push_digits (suc n) n []) (length-push_digits-suc n n [])
  where
    first : (s : Text) → 1 ≤ length s → (c : ℕ) × (ds : Text) × (s ≡ c ∷ ds)
    first [] h = absurd (omega arith)
    first (c ∷ ds) h = (c, ds, refl)

-- The timestamp of `ms` spells `ms`, with minutes and seconds below 60.
pub timestamp-Reads : (ms sep : ℕ) → Reads ms sep (timestamp ms sep)
unfolding timestamp
timestamp-Reads ms sep =
    let h = ms / 3600000 in
    let m = ms % 3600000 / 60000 in
    let s = ms % 60000 / 1000 in
    let f = ms % 1000 in
    record {
      hours = decimal2 h;
      minutes = decimal2 m;
      seconds = decimal2 s;
      millis = decimal3 f;
      spelled = refl;
      widths = (
        two-le-decimal2 h,
        length-decimal2 m (omega arith),
        length-decimal2 s (omega arith),
        length-decimal3 f (omega arith),
      );
      digits = (digits-decimal2 h, digits-decimal2 m, digits-decimal2 s, digits-decimal3 f);
      bounds = (omega (arith, value-decimal2 m), omega (arith, value-decimal2 s));
      total = omega (arith, value-decimal2 h, value-decimal2 m, value-decimal2 s, value-decimal3 f);
    }
