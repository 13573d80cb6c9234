-- ===== src/Api/Download.antt =====
-- The handler `download` of backend/src/api.rs.
use ryu_subtitles.Prelude.{
  ℕ, Bool, true, false, not, ◌&&◌, ◌||◌, List, ◌++◌, retain, Result, ok, err, ◌>>=◌, if◌then◌else◌,
  leb, ltb, ◌==◌,
}
use ryu_subtitles.Text.{Text, codes, is_empty}
use ryu_subtitles.Cues.Model.{Cue, Layout, Format, srt, vtt, extension, content_type}
use ryu_subtitles.Cues.Render.{render}
use ryu_subtitles.Library.{Files, or_else, lossy}
use ryu_subtitles.Store.Model.{Platform, Job, Db, StoreError}
use ryu_subtitles.Store.Jobs as Store
use ryu_subtitles.Store.Queue
use ryu_subtitles.Api.Model.{
  Response, Answer, Site, DownloadQuery, file_body, success, conflict, chosen_format, chosen_layout,
  answered, reply, or_500, or_404,
}

-- `char::is_control`.
unfoldable pub is_control : ℕ → Bool
is_control c = ltb c 0x20 || (leb 0x7f c && leb c 0x9f)

-- The filter of `download_filename`: `"` is 0x22, `\` is 0x5c.
unfoldable pub is_header_safe : ℕ → Bool
is_header_safe c = not (is_control c) && not (c == 0x22) && not (c == 0x5c)

unfoldable pub download_filename : {p : Platform} → Files → Job p → Format → Text
download_filename files job format =
    retain is_header_safe
      (or_else (lossy files (files.file_stem job.source_name)) (codes "subtitles"))
    ++ codes "."
    ++ job.target_language
    ++ codes "."
    ++ extension format

-- The derived `==` of `Format` and of `Layout`.
unfoldable pub same_format : Format → Format → Bool
same_format srt srt = true
same_format vtt vtt = true
same_format _ _ = false

unfoldable pub same_layout : Layout → Layout → Bool
same_layout Layout.translated Layout.translated = true
same_layout Layout.source Layout.source = true
same_layout Layout.bilingual Layout.bilingual = true
same_layout _ _ = false

module _ (p : Platform) (s : Site p) where
  -- `let _ =`: a failure to remember the choice is ignored.
  unfoldable pub or_kept : Db p → Result StoreError (ℕ × Db p) → Db p
  or_kept db (ok done) = done.1
  or_kept db (err e) = db

  unfoldable pub remember : Text → Job p → Format → Layout → Db p → Db p
  remember id job format layout db =
      if not (same_format format job.format) || not (same_layout layout job.layout)
      then or_kept (s.meddle 2 db)
          (Store.set_render_options p id format layout (s.now 2) (s.meddle 2 db))
      else db

  unfoldable pub file_response : Job p → List Cue → Format → Layout → Response p
  file_response job cues format layout = success p (
      file_body (content_type format)
        (codes "attachment; filename=\"" ++ download_filename s.files job format ++ codes "\"")
        (render cues format layout))

  unfoldable pub send_file : Text → Job p → Format → Layout → Db p → Answer p
  send_file id job format layout db = answered p db (do
    cues ← or_500 p s (Queue.cues p id db)
    if is_empty cues
        then err (conflict p (codes "this job has no subtitles yet"))
        else ok (reply p (file_response job cues format layout) (remember id job format layout db)))

  unfoldable pub download : Text → DownloadQuery → Db p → Answer p
  download id query db =
      let db₀ = s.meddle 0 db in
      answered p db₀ (do
        job ← or_404 p s (Queue.get_job p id db₀)
        format ← chosen_format p query.format job.format
        layout ← chosen_layout p query.layout job.layout
        ok (send_file id job format layout (s.meddle 1 db₀)))
