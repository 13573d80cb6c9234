-- ===== src/Cues/Model.antt =====
-- The data of backend/src/cues.rs, and the transcript segment of crates/core/stt/src/lib.rs.
use ryu_subtitles.Prelude.{ℕ, Option, none, some, [], ◌∷◌, if◌then◌else◌}
use ryu_subtitles.Text.{Text, codes, contains_text, trim, to_ascii_lowercase}

abbrev pub max_line_chars : ℕ
max_line_chars = 42

abbrev pub max_lines : ℕ
max_lines = 2

abbrev pub max_cue_ms : ℕ
max_cue_ms = 7000

abbrev pub min_cue_ms : ℕ
min_cue_ms = 800

abbrev pub cue_gap_ms : ℕ
cue_gap_ms = 40

pub record Cue : Type 0 where
  pub start_ms : ℕ
  pub end_ms : ℕ
  pub text : Text
  pub translated : Option Text

-- A segment of an engine's transcript, its times relative to the window.
pub record TranscriptSegment : Type 0 where
  pub start_ms : ℕ
  pub end_ms : ℕ
  pub text : Text

pub data Layout : Type 0 where
  translated source bilingual : Layout

pub data Format : Type 0 where
  srt vtt : Format

abbrev pub default_layout : Layout
default_layout = translated

abbrev pub default_format : Format
default_format = srt

unfoldable pub extension : Format → Text
extension srt = codes "srt"
extension vtt = codes "vtt"

-- `Format::parse`.
unfoldable pub parse_format : Text → Option Format
unfolding contains_text trim to_ascii_lowercase
parse_format value =
    let key = to_ascii_lowercase (trim value) in
    if contains_text key (codes "srt" ∷ codes "subrip" ∷ [])
    then some srt
    else if contains_text key (codes "vtt" ∷ codes "webvtt" ∷ [])
    then some vtt
    else none

unfoldable pub content_type : Format → Text
content_type srt = codes "application/x-subrip"
content_type vtt = codes "text/vtt"
