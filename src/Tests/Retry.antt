-- ===== src/Tests/Retry.antt =====
-- A retry of a job that failed, at a concrete input.
use ryu_subtitles.Prelude.{refl, sym, none, some, [], ◌∷◌}
use ryu_subtitles.Text
use ryu_subtitles.Text.{Text, codes}
use ryu_subtitles.Cues.Model as Cues
use ryu_subtitles.Store.Model as Data
use ryu_subtitles.Store.Model.{Platform, Row, Db}
use ryu_subtitles.Store.Rows
use ryu_subtitles.Store.Jobs as Store
use ryu_subtitles.Store.Jobs.Content.{Opens}
use ryu_subtitles.Store.Queue
use ryu_subtitles.Api.Model
use ryu_subtitles.Api.Model.{Site}
use ryu_subtitles.Api.Jobs
use ryu_subtitles.Api.Retry.{IsRestarted, retry_job-IsRestarted}
use ryu_subtitles.Tests.Store.{plain}
use ryu_subtitles.Tests.Library.{disk}

abbrev blank : Platform
blank = record plain { cues_from_json = λ json. some [] }

blank-Opens : Opens blank
blank-Opens = record { opens = λ purpose id value cell h. sym h }

abbrev site : Site blank
site = record {
  files = disk;
  data_dir = codes "/r/s";
  file_name = λ path. some (codes "a.mp4");
  store_message = λ e. codes "database";
  meddle = λ k db. db;
  now = λ k. k;
}

abbrev failed_row : Row blank
failed_row = record {
  id = codes "a";
  source_path = codes "/h/d/a.mp4";
  source_name = codes "a.mp4";
  target_language = codes "es";
  format = codes "srt";
  layout = codes "translated";
  status = codes "failed";
  progress = 40;
  stage = codes "Transcribing";
  error = some (codes "no speech engine");
  duration_ms = some 9;
  cue_count = 3;
  translated_count = 0;
  engine = codes "whisper";
  model = [];
  output_path = none;
  cues = codes "[three]";
  created_at = 5;
  updated_at = 6;
  completed_at = some 6;
}

abbrev failed_db : Db blank
failed_db = record { jobs = failed_row ∷ []; settings = none }

retry_job-IsRestarted_example :
    IsRestarted blank site (codes "a") 1 failed_db (Jobs.retry_job blank site (codes "a") failed_db)
unfolding Model.parse_layout Model.is_completed Model.error_response Model.bad_request
    Model.not_found Model.conflict Model.server_error Model.path_status Model.path_error
    Model.source_exists Model.decorate Model.chosen_format Model.chosen_layout Model.chosen_language
    Model.answered Model.either Model.reply Model.or_500 Model.or_404 Model.or_vanished
    Jobs.given_or Jobs.or_path_error Jobs.new_job_of Jobs.created Jobs.store_job Jobs.queue_job
    Jobs.create_job Jobs.show_job Jobs.list_jobs Jobs.get_job Jobs.show_cues Jobs.get_cues
    Jobs.data_output_path Jobs.remove_data_output Jobs.reread Jobs.requeued Jobs.run_again
    Jobs.retry_job Jobs.canceled Jobs.stop_job Jobs.cancel_job Jobs.deleted Jobs.delete_job
    Rows.update_rows Rows.find_row Rows.is_active Rows.seal_opt Rows.seal_text Rows.opened
    Rows.opened_opt Rows.row_to_job Store.update Store.changed Store.has_id Store.is_active_id
    Store.write_status Store.set_status Store.set_status_if_active Store.write_canceled
    Store.cancel_if_active Store.write_completed Store.complete_if_active Store.write_progress
    Store.set_progress Store.is_translated Store.write_cues Store.set_cues Store.write_output_path
    Store.set_output_path Store.write_render_options Store.set_render_options Store.write_requeued
    Store.requeue Store.delete_job Store.is_running Store.write_interrupted Store.reset_interrupted
    Store.new_row Store.new_job Store.create_job Store.save_settings Queue.insert_row Queue.order_by
    Queue.get_job Queue.first_readable Queue.is_queued Queue.next_queued Queue.collect_readable
    Queue.list_jobs Queue.cues Queue.settings Queue.job_count Data.as_str Data.parse_status
    Data.is_terminal Data.layout_str Data.parse_layout Text.is_whitespace Text.trim_start
    Text.keep_end Text.trim_end Text.trim Text.ascii_lower Text.to_ascii_lowercase Text.text_eq
    Text.contains_text Text.attach Text.split_whitespace Text.join Text.utf8_len Text.byte_len
    Text.starts_with Text.rfind Text.push_head Text.split_at Text.ink Cues.extension
    Cues.parse_format Cues.content_type
retry_job-IsRestarted_example =
    retry_job-IsRestarted blank blank-Opens refl site (λ k db. refl) (codes "a") failed_db refl
