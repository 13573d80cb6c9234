-- ===== src/Tests/Api.antt =====
-- The theorems on the handlers and on the life of a job at concrete inputs: a store with two jobs, and
-- nothing else at work.
use ryu_subtitles.Prelude.{ℕ, ◌≡◌, ◌↔◌, refl, false, none, some, inl, List, [], ◌∷◌, ok, arith}
use ryu_subtitles.Text
use ryu_subtitles.Text.{Text, codes}
use ryu_subtitles.Cues.Model as Cues
use ryu_subtitles.Cues.Model.{Cue, Layout, srt, vtt}
use ryu_subtitles.Store.Model as Data
use ryu_subtitles.Store.Model.{Platform, Row, Job, Db, NewJob}
use ryu_subtitles.Api.Download
use ryu_subtitles.Api.Jobs
use ryu_subtitles.Api.Model
use ryu_subtitles.Api.Routes
use ryu_subtitles.Languages
use ryu_subtitles.Library
use ryu_subtitles.Store.Jobs as Store
use ryu_subtitles.Store.Queue
use ryu_subtitles.Store.Rows
use ryu_subtitles.Store.Jobs.Guarded.{cancel, run_calls}
use ryu_subtitles.Store.Machine.{
  Command, guarded, requeue_job, delete_job, exec_all, served, moves, status_of,
}
use ryu_subtitles.Store.Machine.Refines.{exec_all-moves}
use ryu_subtitles.Store.Machine.Unique.{Unique, exec_all-Unique}
use ryu_subtitles.Store.Queue.Progress.{next_queued-some}
use ryu_subtitles.Api.Model.{Site, Body, DownloadQuery, CreateJobInput, job_body, decorate}
use ryu_subtitles.Api.Errors.{handle-unchanged}
use ryu_subtitles.Api.Cancel.{cancel_job-ends}
use ryu_subtitles.Api.Created.{IsCreated, create_job-IsCreated}
use ryu_subtitles.Api.Filename.{IsSafe, created_filename-IsSafe}
use ryu_subtitles.Api.Again.{no_query, download-again}
use ryu_subtitles.Api.Documented.{documented, route-documented}
use ryu_subtitles.Tests.Store.{plain, plain-Opens, row, jobs_db}
use ryu_subtitles.Tests.Library.{disk, film}

abbrev b : Text
b = codes "b"

abbrev pub site : Site plain
site = record {
  files = disk;
  data_dir = codes "/r/s";
  file_name = λ path. some (codes "a.mp4");
  store_message = λ e. codes "database";
  meddle = λ k db. db;
  now = λ k. k;
}

abbrev quiet : (k : ℕ) (db : Db plain) → site.meddle k db ≡ db
quiet k db = refl

abbrev calls : List (Command plain)
calls =
    guarded (cancel b (codes "The user canceled.") 7)
    ∷ requeue_job b 8
    ∷ delete_job (codes "a")
    ∷ []

exec_all-moves_example :
    status_of plain b (exec_all plain calls jobs_db)
    ≡ moves plain (served plain calls jobs_db) b (status_of plain b jobs_db)
exec_all-moves_example = exec_all-moves plain calls jobs_db b

exec_all-Unique_example : Unique plain (exec_all plain calls jobs_db).jobs
unfolding Rows.find_row Text.text_eq
exec_all-Unique_example = exec_all-Unique plain calls jobs_db (refl, (refl, tt))

-- A retry of a job that is running.
handle-unchanged_example :
    ((Routes.handle plain site (Routes.retry_job b) jobs_db).db ≡ jobs_db)
    × ((Routes.handle plain site (Routes.retry_job b) jobs_db).signals ≡ [])
unfolding Model.parse_layout Model.is_completed Model.error_response Model.bad_request
    Model.not_found Model.conflict Model.server_error Model.path_status Model.path_error
    Model.source_exists Model.decorate Model.chosen_format Model.chosen_layout Model.chosen_language
    Model.answered Model.either Model.reply Model.or_500 Model.or_404 Model.or_vanished
    Jobs.given_or Jobs.or_path_error Jobs.new_job_of Jobs.created Jobs.store_job Jobs.queue_job
    Jobs.create_job Jobs.show_job Jobs.list_jobs Jobs.get_job Jobs.show_cues Jobs.get_cues
    Jobs.data_output_path Jobs.remove_data_output Jobs.reread Jobs.requeued Jobs.run_again
    Jobs.retry_job Jobs.canceled Jobs.stop_job Jobs.cancel_job Jobs.deleted Jobs.delete_job
    Routes.only_get Routes.only_post Routes.on_settings Routes.on_jobs Routes.on_job Routes.route
    Routes.handle Rows.update_rows Rows.find_row Rows.is_active Rows.seal_opt Rows.seal_text
    Rows.opened Rows.opened_opt Rows.row_to_job Queue.insert_row Queue.order_by Queue.get_job
    Queue.first_readable Queue.is_queued Queue.next_queued Queue.collect_readable Queue.list_jobs
    Queue.cues Queue.settings Queue.job_count Data.as_str Data.parse_status Data.is_terminal
    Data.layout_str Data.parse_layout Text.is_whitespace Text.trim_start Text.keep_end Text.trim_end
    Text.trim Text.ascii_lower Text.to_ascii_lowercase Text.text_eq Text.contains_text Text.attach
    Text.split_whitespace Text.join Text.utf8_len Text.byte_len Text.starts_with Text.rfind
    Text.push_head Text.split_at Text.ink Cues.extension Cues.parse_format Cues.content_type
handle-unchanged_example =
    handle-unchanged plain site quiet plain-Opens (Routes.retry_job b) jobs_db (omega arith)

abbrev canceled_row : Row plain
canceled_row = record (row b (codes "canceled")) {
  error = some (codes "Cancelled.");
  updated_at = 1;
  completed_at = some 1;
}

cancel_job-ends_example : Rows.is_active plain canceled_row ≡ false
unfolding Model.parse_layout Model.is_completed Model.error_response Model.bad_request
    Model.not_found Model.conflict Model.server_error Model.path_status Model.path_error
    Model.source_exists Model.decorate Model.chosen_format Model.chosen_layout Model.chosen_language
    Model.answered Model.either Model.reply Model.or_500 Model.or_404 Model.or_vanished
    Jobs.given_or Jobs.or_path_error Jobs.new_job_of Jobs.created Jobs.store_job Jobs.queue_job
    Jobs.create_job Jobs.show_job Jobs.list_jobs Jobs.get_job Jobs.show_cues Jobs.get_cues
    Jobs.data_output_path Jobs.remove_data_output Jobs.reread Jobs.requeued Jobs.run_again
    Jobs.retry_job Jobs.canceled Jobs.stop_job Jobs.cancel_job Jobs.deleted Jobs.delete_job
    Rows.update_rows Rows.find_row Rows.is_active Rows.seal_opt Rows.seal_text Rows.opened
    Rows.opened_opt Rows.row_to_job Store.update Store.changed Store.has_id Store.is_active_id
    Store.write_status Store.set_status Store.set_status_if_active Store.write_canceled
    Store.cancel_if_active Store.write_completed Store.complete_if_active Store.write_progress
    Store.set_progress Store.is_translated Store.write_cues Store.set_cues Store.write_output_path
    Store.set_output_path Store.write_render_options Store.set_render_options Store.write_requeued
    Store.requeue Store.delete_job Store.is_running Store.write_interrupted Store.reset_interrupted
    Store.new_row Store.new_job Store.create_job Store.save_settings Queue.insert_row Queue.order_by
    Queue.get_job Queue.first_readable Queue.is_queued Queue.next_queued Queue.collect_readable
    Queue.list_jobs Queue.cues Queue.settings Queue.job_count Data.as_str Data.parse_status
    Data.is_terminal Data.layout_str Data.parse_layout Text.is_whitespace Text.trim_start
    Text.keep_end Text.trim_end Text.trim Text.ascii_lower Text.to_ascii_lowercase Text.text_eq
    Text.contains_text Text.attach Text.split_whitespace Text.join Text.utf8_len Text.byte_len
    Text.starts_with Text.rfind Text.push_head Text.split_at Text.ink Cues.extension
    Cues.parse_format Cues.content_type
cancel_job-ends_example =
    cancel_job-ends plain site (λ k. []) (λ k db. unfold run_calls in refl) b jobs_db canceled_row
      refl refl

abbrev input : CreateJobInput
input = record {
  source_path = codes " /h/d/a.mp4";
  target_language = some (codes "ES");
  format = some (codes "vtt");
  layout = none;
  engine = some (codes " ");
  model = none;
}

create_job-IsCreated_example :
    IsCreated plain site (codes "c") input (Jobs.create_job plain site (codes "c") input jobs_db)
unfolding Model.parse_layout Model.is_completed Model.error_response Model.bad_request
    Model.not_found Model.conflict Model.server_error Model.path_status Model.path_error
    Model.source_exists Model.decorate Model.chosen_format Model.chosen_layout Model.chosen_language
    Model.answered Model.either Model.reply Model.or_500 Model.or_404 Model.or_vanished
    Jobs.given_or Jobs.or_path_error Jobs.new_job_of Jobs.created Jobs.store_job Jobs.queue_job
    Jobs.create_job Jobs.show_job Jobs.list_jobs Jobs.get_job Jobs.show_cues Jobs.get_cues
    Jobs.data_output_path Jobs.remove_data_output Jobs.reread Jobs.requeued Jobs.run_again
    Jobs.retry_job Jobs.canceled Jobs.stop_job Jobs.cancel_job Jobs.deleted Jobs.delete_job
    Rows.update_rows Rows.find_row Rows.is_active Rows.seal_opt Rows.seal_text Rows.opened
    Rows.opened_opt Rows.row_to_job Store.update Store.changed Store.has_id Store.is_active_id
    Store.write_status Store.set_status Store.set_status_if_active Store.write_canceled
    Store.cancel_if_active Store.write_completed Store.complete_if_active Store.write_progress
    Store.set_progress Store.is_translated Store.write_cues Store.set_cues Store.write_output_path
    Store.set_output_path Store.write_render_options Store.set_render_options Store.write_requeued
    Store.requeue Store.delete_job Store.is_running Store.write_interrupted Store.reset_interrupted
    Store.new_row Store.new_job Store.create_job Store.save_settings Queue.insert_row Queue.order_by
    Queue.get_job Queue.first_readable Queue.is_queued Queue.next_queued Queue.collect_readable
    Queue.list_jobs Queue.cues Queue.settings Queue.job_count Data.as_str Data.parse_status
    Data.is_terminal Data.layout_str Data.parse_layout Library.message Library.text_le
    Library.is_media_path Library.shadow_clips_dir Library.add_root Library.roots
    Library.containment_roots Library.under_any Library.contained Library.check_canonical
    Library.validate_source Library.list_visible Library.list_entry Library.list_entries
    Library.name_le Library.insert_entry Library.sort_entries Library.list_dir
    Library.sidecar_output_path Languages.languages Languages.eq_ignore_ascii_case
    Languages.find_code Languages.find Text.is_whitespace Text.trim_start Text.keep_end
    Text.trim_end Text.trim Text.ascii_lower Text.to_ascii_lowercase Text.text_eq Text.contains_text
    Text.attach Text.split_whitespace Text.join Text.utf8_len Text.byte_len Text.starts_with
    Text.rfind Text.push_head Text.split_at Text.ink Cues.extension Cues.parse_format
    Cues.content_type
create_job-IsCreated_example =
    create_job-IsCreated plain site plain-Opens (codes "c") input jobs_db refl

abbrev made : NewJob
made = record {
  source_path = film;
  source_name = codes "a.mp4";
  target_language = codes "es";
  format = vtt;
  layout = Layout.translated;
  engine = codes "whisper";
  model = [];
}

created_filename-IsSafe_example :
    IsSafe (Download.download_filename disk (Store.new_job plain (codes "c") made 1) srt)
unfolding Model.parse_layout Model.is_completed Model.error_response Model.bad_request
    Model.not_found Model.conflict Model.server_error Model.path_status Model.path_error
    Model.source_exists Model.decorate Model.chosen_format Model.chosen_layout Model.chosen_language
    Model.answered Model.either Model.reply Model.or_500 Model.or_404 Model.or_vanished
    Jobs.given_or Jobs.or_path_error Jobs.new_job_of Jobs.created Jobs.store_job Jobs.queue_job
    Jobs.create_job Jobs.show_job Jobs.list_jobs Jobs.get_job Jobs.show_cues Jobs.get_cues
    Jobs.data_output_path Jobs.remove_data_output Jobs.reread Jobs.requeued Jobs.run_again
    Jobs.retry_job Jobs.canceled Jobs.stop_job Jobs.cancel_job Jobs.deleted Jobs.delete_job
    Rows.update_rows Rows.find_row Rows.is_active Rows.seal_opt Rows.seal_text Rows.opened
    Rows.opened_opt Rows.row_to_job Store.update Store.changed Store.has_id Store.is_active_id
    Store.write_status Store.set_status Store.set_status_if_active Store.write_canceled
    Store.cancel_if_active Store.write_completed Store.complete_if_active Store.write_progress
    Store.set_progress Store.is_translated Store.write_cues Store.set_cues Store.write_output_path
    Store.set_output_path Store.write_render_options Store.set_render_options Store.write_requeued
    Store.requeue Store.delete_job Store.is_running Store.write_interrupted Store.reset_interrupted
    Store.new_row Store.new_job Store.create_job Store.save_settings Queue.insert_row Queue.order_by
    Queue.get_job Queue.first_readable Queue.is_queued Queue.next_queued Queue.collect_readable
    Queue.list_jobs Queue.cues Queue.settings Queue.job_count Data.as_str Data.parse_status
    Data.is_terminal Data.layout_str Data.parse_layout Library.message Library.text_le
    Library.is_media_path Library.shadow_clips_dir Library.add_root Library.roots
    Library.containment_roots Library.under_any Library.contained Library.check_canonical
    Library.validate_source Library.list_visible Library.list_entry Library.list_entries
    Library.name_le Library.insert_entry Library.sort_entries Library.list_dir
    Library.sidecar_output_path Languages.languages Languages.eq_ignore_ascii_case
    Languages.find_code Languages.find Text.is_whitespace Text.trim_start Text.keep_end
    Text.trim_end Text.trim Text.ascii_lower Text.to_ascii_lowercase Text.text_eq Text.contains_text
    Text.attach Text.split_whitespace Text.join Text.utf8_len Text.byte_len Text.starts_with
    Text.rfind Text.push_head Text.split_at Text.ink Cues.extension Cues.parse_format
    Cues.content_type
created_filename-IsSafe_example =
    created_filename-IsSafe plain site plain-Opens (codes "c") input jobs_db
      (Store.new_job plain (codes "c") made 1) srt refl refl

abbrev as_vtt : DownloadQuery
as_vtt = record { format = some (codes "vtt"); layout = none }

download-again_example :
    (Download.download plain site b no_query
      (Download.download plain site b as_vtt jobs_db).db).response
    ≡ (Download.download plain site b as_vtt jobs_db).response
unfolding Model.parse_layout Model.is_completed Model.error_response Model.bad_request
    Model.not_found Model.conflict Model.server_error Model.path_status Model.path_error
    Model.source_exists Model.decorate Model.chosen_format Model.chosen_layout Model.chosen_language
    Model.answered Model.either Model.reply Model.or_500 Model.or_404 Model.or_vanished
    Download.is_control Download.is_header_safe Download.download_filename Download.same_format
    Download.same_layout Download.or_kept Download.remember Download.file_response
    Download.send_file Download.download Rows.update_rows Rows.find_row Rows.is_active Rows.seal_opt
    Rows.seal_text Rows.opened Rows.opened_opt Rows.row_to_job Queue.insert_row Queue.order_by
    Queue.get_job Queue.first_readable Queue.is_queued Queue.next_queued Queue.collect_readable
    Queue.list_jobs Queue.cues Queue.settings Queue.job_count Data.as_str Data.parse_status
    Data.is_terminal Data.layout_str Data.parse_layout Text.is_whitespace Text.trim_start
    Text.keep_end Text.trim_end Text.trim Text.ascii_lower Text.to_ascii_lowercase Text.text_eq
    Text.contains_text Text.attach Text.split_whitespace Text.join Text.utf8_len Text.byte_len
    Text.starts_with Text.rfind Text.push_head Text.split_at Text.ink Cues.extension
    Cues.parse_format Cues.content_type
download-again_example = download-again plain site quiet b as_vtt jobs_db refl

abbrev reading : Routes.Input
reading = record {
  dir = none;
  query = as_vtt;
  settings = record {
    target_language = none;
    format = none;
    layout = none;
    engine = none;
    model = none;
    write_beside_source = none;
  };
  job = input;
  new_id = codes "c";
}

route-documented_example :
    (Routes.route reading (codes "jobs" ∷ b ∷ codes "cues" ∷ []) Routes.get
      ≡ Routes.handler (Routes.get_cues b))
    ↔ ((documented (Routes.get_cues b) ≡ (Routes.get, codes "jobs" ∷ b ∷ codes "cues" ∷ []))
        × Unit {0})
route-documented_example =
    route-documented reading (codes "jobs" ∷ b ∷ codes "cues" ∷ []) Routes.get (Routes.get_cues b)

abbrev waiting : Db plain
waiting = record { jobs = row b (codes "queued") ∷ []; settings = none }

next_queued-some_example : (j : Job plain) × (Queue.next_queued plain waiting ≡ ok (some j))
unfolding Rows.opened Rows.opened_opt Queue.is_queued Text.text_eq
next_queued-some_example =
    next_queued-some plain waiting (row b (codes "queued")) refl (inl refl) refl (record {
      path = codes "/home/u/a.mp4";
      path_opens = refl;
      name = codes "a.mp4";
      name_opens = refl;
      error = none;
      error_opens = refl;
      output = none;
      output_opens = refl;
    })
