-- ===== src/Cues/Break.antt =====
-- `best_break`, `split_text` and `wrap` of backend/src/cues.rs.
pub mod Cut
pub mod Parts
pub mod Wrap
use ryu_subtitles.Prelude.{
  ℕ, zero, suc, ◌+◌, Option, none, some, true, false, List, [], ◌∷◌, ◌++◌, length, take, drop, ltb,
  leb, if◌then◌else◌, ◌≡◌, refl,
}
use ryu_subtitles.Text.{
  Text, codes, is_whitespace, trim, trim_start, trim_end, is_empty, rfind, byte_len, split_at, join,
}
use ryu_subtitles.Cues.Model.{max_line_chars, max_lines}

abbrev pub sentence_ends : List Text
sentence_ends = codes ". " ∷ codes "? " ∷ codes "! " ∷ codes "。" ∷ codes "？" ∷ codes "！" ∷ []

abbrev pub clause_breaks : List Text
clause_breaks = codes ", " ∷ codes "; " ∷ codes ": " ∷ codes "、" ∷ codes "，" ∷ []

-- The `for` loops of `best_break`: the index behind the last match of the first pattern that occurs.
unfoldable pub break_after : List Text → Text → Option ℕ
unfolding rfind byte_len
break_after [] head = none
break_after (p ∷ ps) head = elim (rfind head p) [
  | some i ↦ some (i + byte_len p)
  | none ↦ break_after ps head
]

-- The early return of a loop that found a place, or else what follows the loop.
abbrev pub found_or : Option ℕ → ℕ → ℕ
found_or (some cut) rest = cut
found_or none rest = rest

abbrev pub space_or : Option ℕ → ℕ → ℕ
space_or (some i) limit = i + 1
space_or none limit = limit

-- `limit` is the byte index of character `budget`, or the length of the text, and `head` what
-- stands before it.
unfoldable pub best_break : Text → ℕ → ℕ
unfolding break_after
best_break text budget =
    let head = take budget text in
    let limit = byte_len head in
    found_or (break_after sentence_ends head)
      (found_or (break_after clause_breaks head) (space_or (rfind head (codes " ")) limit))

unfoldable pub last_part : Text → List Text
last_part [] = []
last_part (c ∷ s) = (c ∷ s) ∷ []

unfoldable pub push_part : Text → Option (List Text) → Option (List Text)
push_part part none = none
push_part part (some parts) = some (part ∷ parts)

-- The `while` loop of `split_text`. `none` is the panic of `split_at`, or the end of the fuel.
unfoldable pub split_rounds : ℕ → Text → ℕ → Option (List Text)
unfolding best_break last_part push_part split_at trim trim_start
split_rounds zero rest budget = none
split_rounds (suc fuel) rest budget = elim (ltb budget (length rest)) [
  | false ↦ some (last_part rest)
  | true ↦ elim (split_at rest (best_break rest budget)) [
    | none ↦ none
    | some (head, tail) ↦ elim (is_empty (trim head)) [
      | true ↦ some (last_part rest)
      | false ↦ push_part (trim head) (split_rounds fuel (trim_start tail) budget)
    ]
  ]
]

abbrev pub parts_or_nil : Option (List Text) → List Text
parts_or_nil none = []
parts_or_nil (some parts) = parts

-- Each round takes at least one character, so one more round than characters is enough fuel.
unfoldable pub split_text : Text → ℕ → List Text
unfolding split_rounds
split_text text budget =
    let rest = trim text in parts_or_nil (split_rounds (suc (length rest)) rest budget)

-- The sum of the parts' numbers of characters.
unfoldable pub total_chars : List Text → ℕ
total_chars [] = 0
total_chars (p ∷ ps) = length p + total_chars ps

unfoldable pub wrap : Text → Text
unfolding split_text join
wrap text =
    let text = trim text in
    let lines = split_text text max_line_chars in
    if leb (length text) max_line_chars
    then text
    else if ltb max_lines (length lines)
    then join (take 1 lines ++ join (drop 1 lines) (codes " ") ∷ []) (codes "\n")
    else join lines (codes "\n")
