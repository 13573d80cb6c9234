-- ===== src/Tests/Withdrawn.antt =====
-- A job that is canceled while the worker runs it, at concrete inputs.
use ryu_subtitles.Text.{is_whitespace, trim_start, trim_end}
use ryu_subtitles.Cues.Clean.{clean}
use ryu_subtitles.Cues.Break.{break_after}
use ryu_subtitles.Cues.Assemble.{cues_from_segments}
use ryu_subtitles.Cues.Normalize.{normalize}
use ryu_subtitles.Languages.{languages, eq_ignore_ascii_case, find_code, find}
use ryu_subtitles.Library.{
  is_media_path, containment_roots, under_any, contained, check_canonical, validate_source,
}
use ryu_subtitles.Translate.Reply.{
  strip_cr, cons_line, split_lines, lines, cons_head, split_once, is_bullet, trim_bullets,
  parse_digits, parse_usize, get, parse_line, parse_lines, parse_reply, read_parts, read_text,
}
use ryu_subtitles.Translate.Pass.{
  chunks, accepted, batch_answers, set_translated, fill, complete, retry, answer_batch,
  finish_batch, batches_loop, translate_cues,
}
use ryu_subtitles.Store.Rows.{
  update_rows, find_row, is_active, seal_opt, seal_text, opened, opened_opt, row_to_job,
}
use ryu_subtitles.Store.Jobs.{
  update, changed, has_id, is_active_id, write_status, set_status_if_active, write_completed,
  complete_if_active, write_progress, set_progress, write_cues, set_cues, write_output_path,
  set_output_path,
}
use ryu_subtitles.Store.Queue.{get_job}
use ryu_subtitles.Store.Model.{as_str, parse_status}
use ryu_subtitles.Engine.Model.{◌>>=◌, write, read}
use ryu_subtitles.Engine.Target.{transcript_is_target}
use ryu_subtitles.Engine.Run.{
  is_canceled, unless_canceled, start, hear, hear_all, store_transcript, transcribe, translation,
  require_translated, translate, translate_if_needed, before_commit, prepare, run_job,
}
use ryu_subtitles.Prelude.{◌≡◌, ltb, if◌then◌else◌, refl, []}
use ryu_subtitles.Text.{codes}
use ryu_subtitles.Tests.Store.{plain}
use ryu_subtitles.Engine.Model.{Around}
use ryu_subtitles.Store.Model.{is_terminal}
use ryu_subtitles.Store.Jobs as Store
use ryu_subtitles.Store.Jobs.Guarded.{run_calls}
use ryu_subtitles.Api.Model
use ryu_subtitles.Api.Model.{Site}
use ryu_subtitles.Api.Jobs
use ryu_subtitles.Api.Withdrawn.{run_job-withdrawn}
use ryu_subtitles.Tests.Engine.{around, job, world}
use ryu_subtitles.Tests.Api.{site}

-- The request comes right before the completion.
abbrev canceling_late : Around plain
canceling_late =
    around (λ n db. if ltb n 14 then db else (Jobs.cancel_job plain site (codes "a") db).db)

run_job-withdrawn_example : (run_job canceling_late job world).1.log ≡ []
unfolding is_whitespace trim_start trim_end clean break_after cues_from_segments normalize languages
    eq_ignore_ascii_case find_code find is_media_path containment_roots under_any contained
    check_canonical validate_source strip_cr cons_line split_lines lines cons_head split_once
    is_bullet trim_bullets parse_digits parse_usize get parse_line parse_lines parse_reply chunks
    accepted batch_answers set_translated fill complete retry answer_batch finish_batch batches_loop
    translate_cues update_rows find_row is_active seal_opt seal_text opened opened_opt row_to_job
    update changed has_id is_active_id write_status set_status_if_active write_progress set_progress
    write_cues set_cues get_job as_str parse_status ◌>>=◌ write read transcript_is_target
    is_canceled unless_canceled start hear hear_all store_transcript transcribe translation
    require_translated translate translate_if_needed before_commit prepare read_parts read_text
    Jobs.cancel_job Jobs.stop_job Jobs.canceled Jobs.reread Jobs.show_job Model.answered
    Model.either Model.reply Model.or_500 Model.or_404 Model.or_vanished Store.cancel_if_active
    Store.write_canceled is_terminal run_calls
run_job-withdrawn_example =
    run_job-withdrawn plain site (λ k. []) (λ k db. refl) canceling_late job world
      (prepare canceling_late job world).1.db [] refl (refl, tt) refl
