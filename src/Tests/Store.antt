-- ===== src/Tests/Store.antt =====
-- The theorems on the store at concrete inputs, on a platform whose cells are the texts themselves.
use ryu_subtitles.Prelude.{
  All, false, ℕ, ◌≤◌, ◌≡◌, refl, sym, true, none, some, List, [], ◌∷◌, length, retain, ok,
}
use ryu_subtitles.Text.{
  trim, trim_start, trim_end, keep_end, is_whitespace, to_ascii_lowercase, ascii_lower, Text, codes,
  text_eq, contains_text,
}
use ryu_subtitles.Cues.Model.{Cue, Layout, srt, vtt, extension, parse_format}
use ryu_subtitles.Store.Model.{
  Job, as_str, NewJob, queued, layout_str, parse_layout, parse_status, Platform, Row, Db,
  default_settings, failed,
}
use ryu_subtitles.Store.Rows.{
  row_to_job, opened, opened_opt, find_row, is_active, update_rows, seal_text,
}
use ryu_subtitles.Store.Jobs
use ryu_subtitles.Store.Jobs.Guarded.{Guarded, status, cancel, complete, run_calls}
use ryu_subtitles.Store.Jobs.Frozen.{ended_is_final}
use ryu_subtitles.Store.Jobs.Outcome.{winners, one_winner}
use ryu_subtitles.Store.Jobs.Content.{Opens, cues-set_cues}
use ryu_subtitles.Store.Queue
use ryu_subtitles.Store.Queue.Next.{NotBefore, next_queued-NotBefore}
use ryu_subtitles.Store.Queue.Created.{get_job-create_job}
use ryu_subtitles.Store.Jobs.Restart.{reset_interrupted-total}

abbrev spoken : List Cue
spoken =
    record { start_ms = 0; end_ms = 900; text = codes "Hello."; translated = some (codes "Hola.") }
    ∷ []

abbrev pub plain : Platform
plain = record {
  Real = ℕ;
  real_zero = 0;
  real_one = 100;
  clamp = λ x low high. x;
  Cell = Text;
  writable = true;
  seal = λ purpose id value. some value;
  unseal = λ purpose id cell. some cell;
  cues_to_json = λ cues. some (codes "[one]");
  cues_from_json = λ json. some spoken;
  settings_to_json = λ s. some [];
  settings_from_json = λ json. some default_settings;
}

pub plain-Opens : Opens plain
plain-Opens = record { opens = λ purpose id value cell h. sym h }

abbrev pub row : Text → Text → Row plain
row id state = record {
  id = id;
  source_path = codes "/home/u/a.mp4";
  source_name = codes "a.mp4";
  target_language = codes "es";
  format = codes "srt";
  layout = codes "translated";
  status = state;
  progress = 0;
  stage = codes "Queued";
  error = none;
  duration_ms = none;
  cue_count = 0;
  translated_count = 0;
  engine = codes "whisper";
  model = [];
  output_path = none;
  cues = codes "[]";
  created_at = 5;
  updated_at = 5;
  completed_at = none;
}

abbrev pub jobs_db : Db plain
jobs_db = record {
  jobs = row (codes "a") (codes "completed") ∷ row (codes "b") (codes "translating") ∷ [];
  settings = none;
}

abbrev race : List (Guarded plain)
race =
    cancel (codes "b") (codes "The user canceled.") 7
    ∷ complete (codes "b") 8
    ∷ status (codes "a") failed none 9 9
    ∷ []

ended_is_final_example :
    find_row plain (codes "a") (run_calls plain race jobs_db).jobs
    ≡ some (row (codes "a") (codes "completed"))
unfolding find_row is_active text_eq contains_text
ended_is_final_example =
    ended_is_final plain race jobs_db (codes "a") (row (codes "a") (codes "completed")) refl refl

one_winner_example : winners plain (codes "b") race jobs_db ≤ 1
one_winner_example = one_winner plain race jobs_db (codes "b")

-- The row and the database behind the write of the cues.
abbrev written : Row plain
written = record (row (codes "b") (codes "translating")) {
  cues = codes "[one]";
  cue_count = 1;
  translated_count = 1;
  updated_at = 9;
}

abbrev written_db : Db plain
written_db = record { jobs = row (codes "a") (codes "completed") ∷ written ∷ []; settings = none }

cues-set_cues_example :
    (Queue.cues plain (codes "b") written_db ≡ ok spoken)
    × (r' : Row plain) × (find_row plain (codes "b") written_db.jobs ≡ some r')
    × (r'.cue_count ≡ length spoken)
    × (r'.translated_count ≡ length (retain (Jobs.is_translated plain) spoken))
unfolding find_row is_active text_eq contains_text Jobs.set_cues Jobs.update update_rows
    Jobs.is_active_id Jobs.has_id Jobs.write_cues seal_text Jobs.is_translated retain
cues-set_cues_example =
    cues-set_cues plain plain-Opens (codes "b") (codes "[one]") spoken 9 jobs_db
      (row (codes "b") (codes "translating")) (1, written_db) refl refl refl refl refl

-- The same platform with a store that refuses writes.
abbrev pub read_only : Platform
read_only = record plain { writable = false }

abbrev request : NewJob
request = record {
  source_path = codes "/home/u/b.mp4";
  source_name = codes "b.mp4";
  target_language = codes "fr";
  format = vtt;
  layout = Layout.bilingual;
  engine = codes "whisper";
  model = [];
}

abbrev request_row : Row plain
request_row = record {
  id = codes "c";
  source_path = codes "/home/u/b.mp4";
  source_name = codes "b.mp4";
  target_language = codes "fr";
  format = codes "vtt";
  layout = codes "bilingual";
  status = codes "queued";
  progress = 0;
  stage = codes "Queued";
  error = none;
  duration_ms = none;
  cue_count = 0;
  translated_count = 0;
  engine = codes "whisper";
  model = [];
  output_path = none;
  cues = codes "[]";
  created_at = 9;
  updated_at = 9;
  completed_at = none;
}

abbrev grown_db : Db plain
grown_db = record {
  jobs =
      row (codes "a") (codes "completed")
      ∷ row (codes "b") (codes "translating")
      ∷ request_row
      ∷ [];
  settings = none;
}

get_job-create_job_example :
    (Queue.get_job plain (codes "c") grown_db
      ≡ ok (some (Jobs.new_job plain (codes "c") request 9)))
    × (Jobs.new_job plain (codes "c") request 9 ≡ Jobs.new_job plain (codes "c") request 9)
    × (find_row plain (codes "c") jobs_db.jobs ≡ none)
unfolding find_row text_eq Jobs.create_job Jobs.new_row seal_text Jobs.new_job as_str layout_str
    extension
get_job-create_job_example =
    get_job-create_job plain plain-Opens (codes "c") request 9 jobs_db
      (Jobs.new_job plain (codes "c") request 9, grown_db) refl

abbrev waiting_db : Db plain
waiting_db = record {
  jobs = record (row (codes "a") (codes "queued")) { created_at = 8 } ∷ request_row ∷ [];
  settings = none;
}

abbrev waiting_job : Job plain
waiting_job = record {
  id = codes "a";
  source_path = codes "/home/u/a.mp4";
  source_name = codes "a.mp4";
  target_language = codes "es";
  format = srt;
  layout = Layout.translated;
  status = queued;
  progress = 0;
  stage = codes "Queued";
  error = none;
  duration_ms = none;
  cue_count = 0;
  translated_count = 0;
  engine = codes "whisper";
  model = [];
  output_path = none;
  created_at = 8;
  updated_at = 5;
  completed_at = none;
}

next_queued_example :
    All (NotBefore plain waiting_job) (retain (Queue.is_queued plain) waiting_db.jobs)
unfolding Queue.next_queued Queue.first_readable Queue.order_by Queue.insert_row Queue.is_queued
    retain text_eq row_to_job opened opened_opt parse_format parse_layout parse_status trim
    trim_start trim_end keep_end is_whitespace to_ascii_lowercase ascii_lower contains_text
next_queued_example = next_queued-NotBefore plain waiting_db waiting_job refl

abbrev pub stuck : Row read_only
stuck = record {
  id = codes "b";
  source_path = codes "/home/u/a.mp4";
  source_name = codes "a.mp4";
  target_language = codes "es";
  format = codes "srt";
  layout = codes "translated";
  status = codes "transcribing";
  progress = 0;
  stage = codes "Queued";
  error = none;
  duration_ms = none;
  cue_count = 0;
  translated_count = 0;
  engine = codes "whisper";
  model = [];
  output_path = none;
  cues = codes "[]";
  created_at = 5;
  updated_at = 5;
  completed_at = none;
}

abbrev stuck_db : Db read_only
stuck_db = record { jobs = stuck ∷ []; settings = none }

reset_interrupted_example :
    (out : ℕ × Db read_only) × (Jobs.reset_interrupted read_only 9 stuck_db ≡ ok out)
    × All (λ r. Jobs.is_running read_only r ≡ false) out.1.jobs
reset_interrupted_example = reset_interrupted-total read_only 9 stuck_db refl
