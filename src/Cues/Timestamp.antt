-- ===== src/Cues/Timestamp.antt =====
-- `timestamp` of backend/src/cues.rs, and the decimal forms of Rust's `format!`.
pub mod Read
use ryu_subtitles.Prelude.{
  ℕ, zero, suc, ◌+◌, ◌/◌, ◌%◌, [], ◌∷◌, ◌++◌, ltb, if◌then◌else◌, ◌≡◌, refl,
}
use ryu_subtitles.Text.{Text, codes}

-- The digits of `n` in base ten, most significant first, in front of `out`. Rounds stop when
-- nothing is left.
unfoldable pub push_digits : ℕ → ℕ → Text → Text
push_digits zero n out = out
push_digits (suc fuel) n out =
    let more = push_digits fuel (n / 10) ((b'0' + n % 10) ∷ out) in
    if ltb n 10 then (b'0' + n) ∷ out else more

-- `{n}`: a number has at most as many digits as it counts, and one.
unfoldable pub decimal : ℕ → Text
unfolding push_digits
decimal n = push_digits (suc n) n []

-- `{n:02}`.
unfoldable pub decimal2 : ℕ → Text
unfolding decimal
decimal2 n = if ltb n 10 then b'0' ∷ decimal n else decimal n

-- `{n:03}`.
unfoldable pub decimal3 : ℕ → Text
unfolding decimal2
decimal3 n = if ltb n 100 then b'0' ∷ decimal2 n else decimal n

unfoldable pub timestamp : ℕ → ℕ → Text
unfolding decimal2 decimal3
timestamp ms sep =
    let hours = ms / 3600000 in
    let minutes = ms % 3600000 / 60000 in
    let seconds = ms % 60000 / 1000 in
    let millis = ms % 1000 in
    decimal2 hours
    ++ b':' ∷ (decimal2 minutes ++ b':' ∷ (decimal2 seconds ++ sep ∷ decimal3 millis))
