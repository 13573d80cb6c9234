-- ===== src/Engine/Target.antt =====
-- `transcript_is_target` and `clock` of backend/src/engine.rs. `char::is_alphabetic` is a parameter.
use ryu_subtitles.Prelude.{
  ℕ, ◌*◌, ◌/◌, ◌%◌, Bool, false, not, ◌&&◌, List, ◌++◌, length, take, map, retain, ltb, leb, ◌==◌,
  if◌then◌else◌,
}
use ryu_subtitles.Text.{Text, codes, trim, is_empty, join, text_eq}
use ryu_subtitles.Cues.Model.{Cue}
use ryu_subtitles.Cues.Timestamp.{decimal, decimal2}
use ryu_subtitles.Languages.{Language}

-- The text of the first twenty cues.
unfoldable pub sample : List Cue → Text
sample cues = join (map (λ (c : Cue). c.text) (take 20 cues)) (codes " ")

-- The last test: 95 of 100 letters are ASCII.
abbrev pub mostly_ascii : ℕ → ℕ → Bool
mostly_ascii ascii letters = not (letters == 0) && leb 95 ((ascii * 100) / letters)

unfoldable pub transcript_is_target : (ℕ → Bool) → List Cue → Language → Bool
transcript_is_target is_alphabetic cues language =
    if not (text_eq language.code (codes "en"))
    then false
    else let s = sample cues in
      if is_empty (trim s)
      then false
      else mostly_ascii (length (retain (λ c. is_alphabetic c && ltb c 128) s))
          (length (retain is_alphabetic s))

unfoldable pub clock : ℕ → Text
clock ms =
    let total = ms / 1000 in
    let hours = total / 3600 in
    let minutes = (total % 3600) / 60 in
    let seconds = total % 60 in
    if ltb 0 hours
    then decimal hours ++ codes ":" ++ decimal2 minutes ++ codes ":" ++ decimal2 seconds
    else decimal minutes ++ codes ":" ++ decimal2 seconds
