-- ===== src/Translate/Reply.antt =====
-- `render_batch`, `parse_reply` and `single_line_fallback` of backend/src/translate.rs.
pub mod Lines
use ryu_subtitles.Prelude.{
  ℕ, ◌+◌, ◌-◌, ◌*◌, ◌^◌, Bool, not, ◌&&◌, ◌||◌, Option, none, some, List, [], ◌∷◌, ◌++◌, ◌==◌, leb,
  ltb, if◌then◌else◌, map,
}
use ryu_subtitles.Text.{Text, codes, trim, is_empty, starts_with, join}
use ryu_subtitles.Cues.Model.{Cue}
use ryu_subtitles.Cues.Timestamp.{decimal}

abbrev pub batch_size : ℕ
batch_size = 25

-- `MARKER`, the character U+27E9.
abbrev pub marker : ℕ
marker = 0x27e9

-- `text.replace('\n', " ")`.
unfoldable pub replace_newlines : Text → Text
replace_newlines [] = []
replace_newlines (c ∷ s) = (if c == b'\n' then b' ' else c) ∷ replace_newlines s

-- `{n}⟩ {text}`.
unfoldable pub numbered_line : ℕ → Text → Text
numbered_line n text = decimal n ++ marker ∷ b' ' ∷ text

unfoldable pub batch_lines : List Cue → ℕ → List Text
batch_lines [] base = []
batch_lines (c ∷ cues) base =
    numbered_line (base + 1) (replace_newlines c.text) ∷ batch_lines cues (base + 1)

unfoldable pub render_batch : List Cue → ℕ → Text
render_batch cues base = join (batch_lines cues base) (codes "\n")

-- A final `\r` of a line is not part of it.
unfoldable pub strip_cr : Text → Text
strip_cr [] = []
strip_cr (c ∷ []) = if c == b'\r' then [] else c ∷ []
strip_cr (c ∷ d ∷ s) = c ∷ strip_cr (d ∷ s)

unfoldable pub cons_line : ℕ → List Text → List Text
cons_line c [] = (c ∷ []) ∷ []
cons_line c (l ∷ ls) = (c ∷ l) ∷ ls

-- The pieces between newlines; a newline at the end of the text opens no piece.
unfoldable pub split_lines : Text → List Text
split_lines [] = []
split_lines (c ∷ s) = let rest = split_lines s in if c == b'\n' then [] ∷ rest else cons_line c rest

-- `str::lines`.
unfoldable pub lines : Text → List Text
lines s = map strip_cr (split_lines s)

unfoldable pub cons_head : ℕ → Option (Text × Text) → Option (Text × Text)
cons_head c none = none
cons_head c (some (head, tail)) = some (c ∷ head, tail)

-- `str::split_once` at a character.
unfoldable pub split_once : Text → ℕ → Option (Text × Text)
split_once [] m = none
split_once (c ∷ s) m =
    let rest = cons_head c (split_once s m) in if c == m then some ([], s) else rest

unfoldable pub is_bullet : ℕ → Bool
is_bullet c = c == b'-' || (c == b'*' || c == 0x2022)

-- `trim_start_matches(['-', '*', '•'])`.
unfoldable pub trim_bullets : Text → Text
trim_bullets [] = []
trim_bullets (c ∷ s) = if is_bullet c then trim_bullets s else c ∷ s

-- The digits of `parse::<usize>()`, behind the number `n`: `none` at another character, and where
-- the number leaves 64 bits.
unfoldable pub parse_digits : Text → ℕ → Option ℕ
parse_digits [] n = some n
parse_digits (c ∷ s) n =
    let m = n * 10 + (c - b'0') in
    let rest = parse_digits s m in
    if (leb b'0' c && leb c b'9') && ltb m (2 ^ 64) then rest else none

-- `parse::<usize>()`: a leading `+` is allowed, and no digit is not.
unfoldable pub parse_usize : Text → Option ℕ
parse_usize [] = none
parse_usize (c ∷ []) = parse_digits (c ∷ []) 0
parse_usize (c ∷ d ∷ s) =
    let signed = parse_digits (d ∷ s) 0 in
    let plain = parse_digits (c ∷ d ∷ s) 0 in if c == b'+' then signed else plain

-- A `HashMap<usize, String>` as a list of pairs, the last insertion first.
abbrev pub Replies : Type 0
Replies = List (ℕ × Text)

unfoldable pub get : ℕ → Replies → Option Text
get n [] = none
get n ((m, t) ∷ rs) = if m == n then some t else get n rs

abbrev pub insert : ℕ → Text → Replies → Replies
insert n t rs = (n, t) ∷ rs

-- What a line says under its number: none if it is blank.
unfoldable pub read_text : Option ℕ → Text → Option (ℕ × Text)
read_text none tail = none
read_text (some n) tail = let text = trim tail in if is_empty text then none else some (n, text)

unfoldable pub read_parts : Option (Text × Text) → Option (ℕ × Text)
read_parts none = none
read_parts (some (head, tail)) = read_text (parse_usize (trim (trim_bullets (trim head)))) tail

-- One line of a reply: its number and its text.
unfoldable pub parse_line : Text → Option (ℕ × Text)
parse_line line = read_parts (split_once (trim line) marker)

abbrev pub insert_line : Option (ℕ × Text) → Replies → Replies
insert_line none out = out
insert_line (some (n, text)) out = insert n text out

-- The loop of `parse_reply`.
unfoldable pub parse_lines : List Text → Replies → Replies
parse_lines [] out = out
parse_lines (line ∷ rest) out = parse_lines rest (insert_line (parse_line line) out)

unfoldable pub parse_reply : Text → Replies
parse_reply reply = parse_lines (lines reply) []

unfoldable pub first_plain : List Text → Option Text
first_plain [] = none
first_plain (line ∷ rest) =
    let l = trim line in
    let later = first_plain rest in
    if not (is_empty l) && not (starts_with l (codes "```")) then some l else later

unfoldable pub single_line_fallback : Text → Option Text
single_line_fallback reply = first_plain (lines reply)
