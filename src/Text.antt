-- ===== src/Text.antt =====
-- Rust text as the list of its characters, each one a Unicode scalar value, and the methods of
-- `str` and `char` that the program calls. A byte index counts UTF-8 bytes, as in Rust.
use Prim.Native.Char.{code}
pub mod Trim
pub mod Search
pub mod Equal
use ryu_subtitles.Prelude.{
  ℕ, zero, suc, ◌+◌, ◌-◌, String, Bool, true, false, not, ◌&&◌, ◌||◌, Option, none, some, List, [],
  ◌∷◌, ◌++◌, map, retain, ltb, leb, ◌==◌, if◌then◌else◌,
}

abbrev pub Text : Type 0
Text = List ℕ

-- The characters of a literal.
abbrev pub codes : String → Text
codes String.[] = []
codes (String.◌∷◌ c s) = code c ∷ codes s

-- `char::is_whitespace`: the Unicode property White_Space.
unfoldable pub is_whitespace : ℕ → Bool
is_whitespace c =
    (leb 0x9 c && leb c 0xd)
    || c == 0x20
    || c == 0x85
    || c == 0xa0
    || c == 0x1680
    || (leb 0x2000 c && leb c 0x200a)
    || c == 0x2028
    || c == 0x2029
    || c == 0x202f
    || c == 0x205f
    || c == 0x3000

unfoldable pub trim_start : Text → Text
trim_start [] = []
trim_start (c ∷ s) = if is_whitespace c then trim_start s else c ∷ s

unfoldable pub keep_end : ℕ → Text → Text
keep_end c [] = if is_whitespace c then [] else c ∷ []
keep_end c (d ∷ s) = c ∷ d ∷ s

unfoldable pub trim_end : Text → Text
unfolding keep_end
trim_end [] = []
trim_end (c ∷ s) = keep_end c (trim_end s)

unfoldable pub trim : Text → Text
trim s = trim_end (trim_start s)

abbrev pub is_empty {ℓ} : {A : Type ℓ} → List A → Bool
is_empty [] = true
is_empty (x ∷ xs) = false

-- `char::to_ascii_lowercase`.
unfoldable pub ascii_lower : ℕ → ℕ
ascii_lower c = if leb b'A' c && leb c b'Z' then c + 32 else c

unfoldable pub to_ascii_lowercase : Text → Text
unfolding ascii_lower
to_ascii_lowercase s = map ascii_lower s

unfoldable pub text_eq : Text → Text → Bool
text_eq [] [] = true
text_eq [] (d ∷ t) = false
text_eq (c ∷ s) [] = false
text_eq (c ∷ s) (d ∷ t) = c == d && text_eq s t

-- `[T]::contains` on texts.
unfoldable pub contains_text : Text → List Text → Bool
unfolding text_eq
contains_text s [] = false
contains_text s (t ∷ ts) = text_eq s t || contains_text s ts

-- The first word of `words` gets `c`, if `c` stands right before it.
unfoldable pub attach : ℕ → Text → List Text → List Text
attach c [] words = (c ∷ []) ∷ words
attach c (d ∷ s) [] = (c ∷ []) ∷ []
attach c (d ∷ s) (w ∷ words) = if is_whitespace d then (c ∷ []) ∷ w ∷ words else (c ∷ w) ∷ words

unfoldable pub split_whitespace : Text → List Text
unfolding attach
split_whitespace [] = []
split_whitespace (c ∷ s) =
    let words = split_whitespace s in if is_whitespace c then words else attach c s words

-- `[String]::join`.
unfoldable pub join : List Text → Text → Text
join [] sep = []
join (w ∷ []) sep = w
join (w ∷ v ∷ ws) sep = w ++ (sep ++ join (v ∷ ws) sep)

-- The number of bytes of a character in UTF-8.
unfoldable pub utf8_len : ℕ → ℕ
utf8_len c = if ltb c 0x80 then 1 else if ltb c 0x800 then 2 else if ltb c 0x10000 then 3 else 4

unfoldable pub byte_len : Text → ℕ
byte_len [] = 0
byte_len (c ∷ s) = utf8_len c + byte_len s

unfoldable pub starts_with : Text → Text → Bool
starts_with s [] = true
starts_with [] (p ∷ ps) = false
starts_with (c ∷ s) (p ∷ ps) = c == p && starts_with s ps

-- `str::rfind`: the byte index of the last occurrence. A match of `s` itself is at 0.
unfoldable pub rfind : Text → Text → Option ℕ
unfolding starts_with utf8_len
rfind [] p = if starts_with [] p then some 0 else none
rfind (c ∷ s) p = elim (rfind s p) [
  | some i ↦ some (utf8_len c + i)
  | none ↦ if starts_with (c ∷ s) p then some 0 else none
]

unfoldable pub push_head : ℕ → Option (Text × Text) → Option (Text × Text)
push_head c none = none
push_head c (some (head, tail)) = some (c ∷ head, tail)

-- `str::split_at`: `none` is the panic at an index inside a character or past the end.
unfoldable pub split_at : Text → ℕ → Option (Text × Text)
unfolding utf8_len push_head
split_at s zero = some ([], s)
split_at [] (suc n) = none
split_at (c ∷ s) (suc n) =
    let rest = push_head c (split_at s (suc n - utf8_len c)) in
    if ltb (suc n) (utf8_len c) then none else rest

-- The characters that are not white space.
unfoldable pub ink : Text → Text
ink s = retain (λ c. not (is_whitespace c)) s
