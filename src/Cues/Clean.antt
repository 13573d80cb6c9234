-- ===== src/Cues/Clean.antt =====
-- `clean` of backend/src/cues.rs.
use ryu_subtitles.Prelude.{List, [], ◌∷◌, if◌then◌else◌}
use ryu_subtitles.Text.{
  Text, codes, trim, to_ascii_lowercase, contains_text, split_whitespace, join,
}

abbrev pub noise : List Text
noise =
    codes "[blank_audio]"
    ∷ codes "[silence]"
    ∷ codes "(silence)"
    ∷ codes "[music]"
    ∷ codes "(music)"
    ∷ codes "[applause]"
    ∷ codes "[inaudible]"
    ∷ codes "[ silence ]"
    ∷ codes "*"
    ∷ codes "."
    ∷ codes ".."
    ∷ codes "..."
    ∷ codes "…"
    ∷ codes "-"
    ∷ []

unfoldable pub clean : Text → Text
unfolding trim to_ascii_lowercase contains_text split_whitespace join
clean text =
    let trimmed = trim text in
    if contains_text (to_ascii_lowercase trimmed) noise
    then []
    else join (split_whitespace trimmed) (codes " ")
