-- ===== src/Tests/Engine.antt =====
-- The theorems on the worker at a concrete job.
use ryu_subtitles.Text.{is_whitespace, trim_start, keep_end, trim_end, trim}
use ryu_subtitles.Cues.Model.{extension}
use ryu_subtitles.Cues.Clean.{clean}
use ryu_subtitles.Cues.Break.{break_after, wrap}
use ryu_subtitles.Cues.Assemble.{cues_from_segments}
use ryu_subtitles.Cues.Normalize.{normalize}
use ryu_subtitles.Cues.Render.{lay_out, rendered, srt_block, srt_blocks, render_srt, render}
use ryu_subtitles.Languages.{languages, eq_ignore_ascii_case, find_code, find}
use ryu_subtitles.Library.{
  is_media_path, containment_roots, under_any, contained, check_canonical, validate_source,
  sidecar_output_path,
}
use ryu_subtitles.Translate.Reply.{
  strip_cr, cons_line, split_lines, lines, cons_head, split_once, is_bullet, trim_bullets,
  parse_digits, parse_usize, get, parse_line, parse_lines, parse_reply, read_parts, read_text,
}
use ryu_subtitles.Translate.Pass.{
  chunks, accepted, batch_answers, set_translated, fill, complete, retry, answer_batch,
  finish_batch, batches_loop, translate_cues,
}
use ryu_subtitles.Store.Rows.{
  update_rows, find_row, is_active, seal_opt, seal_text, opened, opened_opt, row_to_job,
}
use ryu_subtitles.Store.Jobs.{
  update, changed, has_id, is_active_id, write_status, set_status_if_active, write_completed,
  complete_if_active, write_progress, set_progress, write_cues, set_cues, write_output_path,
  set_output_path,
}
use ryu_subtitles.Store.Queue.{get_job, settings}
use ryu_subtitles.Store.Model.{as_str, parse_status}
use ryu_subtitles.Engine.Model.{◌>>=◌, write, read}
use ryu_subtitles.Engine.Target.{transcript_is_target}
use ryu_subtitles.Engine.Run.{
  is_canceled, unless_canceled, start, hear, hear_all, store_transcript, transcribe, translation,
  require_translated, translate, translate_if_needed, commit, before_commit, write_copy,
  write_beside, publish, prepare, work, run_job,
}
use ryu_subtitles.Cues.Timestamp.{push_digits, decimal, decimal2, decimal3, timestamp}
use ryu_subtitles.Prelude.{
  ℕ, ◌≡◌, ◌⊎◌, true, none, some, ltb, if◌then◌else◌, refl, List, [], ◌∷◌, ok,
}
use ryu_subtitles.Text.{codes}
use ryu_subtitles.Cues.Model.{Cue, Layout, srt}
use ryu_subtitles.Store.Model.{Job, Db, queued}
use ryu_subtitles.Tests.Store.{plain, row}
use ryu_subtitles.Tests.Library.{disk}
use ryu_subtitles.Engine.Model.{World, Around, wrote_file, completed_event}
use ryu_subtitles.Engine.Commit.{run_job-committed, run_job-ended}

abbrev db : Db plain
db = record { jobs = row (codes "a") (codes "queued") ∷ []; settings = none }

abbrev pub around : (ℕ → Db plain → Db plain) → Around plain
around meddle = record {
  files = disk;
  meddle = meddle;
  now = λ n. n;
  later = λ n. n;
  env = λ name. none;
  is_alphabetic = λ c. true;
  Wav = Unit;
  decode = λ path. ok (record { offset_ms = 0; duration_ms = 900; wav = tt }) ∷ [];
  transcribe = λ n wav engine. ok (record { text = codes "Hello."; segments = []; words = [] });
  post = λ config system user n. some (200, codes "1⟩ Hola.");
  content_of = λ body. some body;
  write_file = λ path contents n. true;
  store_message = λ e. codes "database";
  writing_share = 98;
}

abbrev pub job : Job plain
job = record {
  id = codes "a";
  source_path = codes "/h/d/a.mp4";
  source_name = codes "a.mp4";
  target_language = codes "es";
  format = srt;
  layout = Layout.translated;
  status = queued;
  progress = 0;
  stage = codes "Queued";
  error = none;
  duration_ms = none;
  cue_count = 0;
  translated_count = 0;
  engine = codes "whisper";
  model = [];
  output_path = none;
  created_at = 5;
  updated_at = 5;
  completed_at = none;
}

abbrev pub world : World plain
world = record { db = db; time = 0; log = [] }

abbrev alone : Around plain
alone = around (λ n db. db)

run_job-committed_example :
    ((run_job alone job world).1.log ≡ [])
    ⊎ ((cues : List Cue) × ((prepare alone job world).0 ≡ ok cues)
        × ((commit alone job (prepare alone job world).1).0 ≡ ok true))
run_job-committed_example = run_job-committed alone job world

-- The job is deleted right before the completion.
abbrev deleting_late : Around plain
deleting_late = around (λ n db. if ltb n 14 then db else record db { jobs = [] })

run_job-ended_example : (run_job deleting_late job world).1.log ≡ []
unfolding is_whitespace trim_start trim_end clean break_after cues_from_segments normalize languages
    eq_ignore_ascii_case find_code find is_media_path containment_roots under_any contained
    check_canonical validate_source strip_cr cons_line split_lines lines cons_head split_once
    is_bullet trim_bullets parse_digits parse_usize get parse_line parse_lines parse_reply chunks
    accepted batch_answers set_translated fill complete retry answer_batch finish_batch batches_loop
    translate_cues update_rows find_row is_active seal_opt seal_text opened opened_opt row_to_job
    update changed has_id is_active_id write_status set_status_if_active write_progress set_progress
    write_cues set_cues get_job as_str parse_status ◌>>=◌ write read transcript_is_target
    is_canceled unless_canceled start hear hear_all store_transcript transcribe translation
    require_translated translate translate_if_needed before_commit prepare read_parts read_text
run_job-ended_example = run_job-ended deleting_late job world tt

-- A job that nobody touches is published.
published :
    (run_job alone job world).1.log
    ≡ wrote_file (codes "/h/d/a.es.srt") (codes "1\n00:00:00,000 --> 00:00:00,900\nHola.\n\n")
      ∷ completed_event (codes "a") 1 (some (codes "/h/d/a.es.srt"))
      ∷ []
unfolding is_whitespace trim_start trim_end clean break_after cues_from_segments normalize languages
    eq_ignore_ascii_case find_code find is_media_path containment_roots under_any contained
    check_canonical validate_source strip_cr cons_line split_lines lines cons_head split_once
    is_bullet trim_bullets parse_digits parse_usize get parse_line parse_lines parse_reply chunks
    accepted batch_answers set_translated fill complete retry answer_batch finish_batch batches_loop
    translate_cues update_rows find_row is_active seal_opt seal_text opened opened_opt row_to_job
    update changed has_id is_active_id write_status set_status_if_active write_progress set_progress
    write_cues set_cues get_job as_str parse_status ◌>>=◌ write read transcript_is_target
    is_canceled unless_canceled start hear hear_all store_transcript transcribe translation
    require_translated translate translate_if_needed before_commit prepare read_parts read_text
    publish write_beside write_copy sidecar_output_path settings set_output_path write_output_path
    complete_if_active write_completed extension render render_srt srt_blocks rendered lay_out
    srt_block wrap timestamp decimal decimal2 decimal3 push_digits commit work run_job trim keep_end
published = refl
