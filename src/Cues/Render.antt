-- ===== src/Cues/Render.antt =====
-- `Cue::rendered`, `render`, `render_srt` and `render_vtt` of backend/src/cues.rs.
pub mod Shown
use ryu_subtitles.Prelude.{ℕ, ◌+◌, Option, none, some, List, [], ◌∷◌, ◌++◌, if◌then◌else◌}
use ryu_subtitles.Text.{Text, codes, is_empty, trim}
use ryu_subtitles.Cues.Model.{Cue, Layout, Format, srt, vtt}
use ryu_subtitles.Cues.Break.{wrap}
use ryu_subtitles.Cues.Timestamp.{decimal, timestamp}

unfoldable pub lay_out : Layout → Text → Option Text → Text
lay_out Layout.translated source (some t) = t
lay_out Layout.translated source none = source
lay_out Layout.source source translated = source
lay_out Layout.bilingual source (some t) = t ++ (codes "\n" ++ source)
lay_out Layout.bilingual source none = source

abbrev pub wrap_translated : Option Text → Option Text
wrap_translated none = none
wrap_translated (some t) = some (wrap t)

unfoldable pub rendered : Cue → Layout → Text
rendered cue layout = lay_out layout (wrap cue.text) (wrap_translated cue.translated)

unfoldable pub srt_block : ℕ → Cue → Text → Text
srt_block index cue body =
    decimal index
    ++ (codes "\n"
        ++ (timestamp cue.start_ms b','
            ++ (codes " --> "
                ++ (timestamp cue.end_ms b',' ++ (codes "\n" ++ (body ++ codes "\n\n"))))))

-- The loop of `render_srt`, from the cue that gets `index` on.
unfoldable pub srt_blocks : Layout → ℕ → List Cue → Text
srt_blocks layout index [] = []
srt_blocks layout index (cue ∷ cues) =
    let body = rendered cue layout in
    let skip = srt_blocks layout index cues in
    let write = srt_block index cue body ++ srt_blocks layout (index + 1) cues in
    if is_empty (trim body) then skip else write

unfoldable pub render_srt : List Cue → Layout → Text
render_srt cues layout = srt_blocks layout 1 cues

unfoldable pub vtt_block : Cue → Text → Text
vtt_block cue body =
    timestamp cue.start_ms b'.'
    ++ (codes " --> " ++ (timestamp cue.end_ms b'.' ++ (codes "\n" ++ (body ++ codes "\n\n"))))

unfoldable pub vtt_blocks : Layout → List Cue → Text
vtt_blocks layout [] = []
vtt_blocks layout (cue ∷ cues) =
    let body = rendered cue layout in
    let rest = vtt_blocks layout cues in
    if is_empty (trim body) then rest else vtt_block cue body ++ rest

unfoldable pub render_vtt : List Cue → Layout → Text
render_vtt cues layout = codes "WEBVTT\n\n" ++ vtt_blocks layout cues

unfoldable pub render : List Cue → Format → Layout → Text
render cues srt layout = render_srt cues layout
render cues vtt layout = render_vtt cues layout
