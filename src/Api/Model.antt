-- ===== src/Api/Model.antt =====
-- The requests and the responses of backend/src/api.rs, and how a handler returns early.
use ryu_subtitles.Prelude.{
  ℕ, Bool, true, false, not, ◌&&◌, Option, none, some, List, [], ◌∷◌, ◌++◌, ltb, Result, ok, err,
  ok_or, String, if◌then◌else◌,
}
use ryu_subtitles.Text.{Text, codes, trim, to_ascii_lowercase, contains_text}
use ryu_subtitles.Cues.Model.{Cue, Format, Layout, parse_format}
use ryu_subtitles.Languages.{Language, find}
use ryu_subtitles.Library.{
  Files, Entry, Root, PathError, outside_roots, missing, not_media, message,
}
use ryu_subtitles.Store.Model.{Platform, Job, Db, Settings, StoreError, Status, completed}

abbrev pub list_limit : ℕ
list_limit = 200

-- A job with the three fields that `decorate` adds.
pub record View (p : Platform) : Type 0 where
  pub job : Job p
  pub source_missing : Bool
  pub downloadable : Bool
  pub language_name : Option Text

pub data Body (p : Platform) : Type 0 where
  languages_body : List Language → Body p
  roots_body : List Root → Body p
  no_dir_body : List Root → Body p
  entries_body : List Entry → Body p
  settings_body : Settings → Body p
  job_body : View p → Body p
  jobs_body : List (View p) → Body p
  cues_body : List Cue → Body p
  error_body : Text → Body p
  -- A content type, a content disposition and the text.
  file_body : Text → Text → Text → Body p
  text_body : Text → Body p
  no_body : Body p

pub record Response (p : Platform) : Type 0 where
  pub status : ℕ
  pub body : Body p

-- What a handler does besides the database: it wakes the worker, sends the event of a queued job, and
-- removes a file if there is one.
pub data Signal : Type 0 where
  wake : Signal
  queued_event : Text → Text → Text → Signal
  remove_file : Text → Signal

pub record Answer (p : Platform) : Type 0 where
  pub response : Response p
  pub db : Db p
  pub signals : List Signal

-- What a handler does not decide: the file system, the app's data directory, the messages of the
-- store's errors, what other tasks do to the database before its `k`-th access, and the time then.
pub record Site (p : Platform) : Type 0 where
  pub files : Files
  pub data_dir : Text
  -- `Path::file_name`.
  pub file_name : Text → Option Text
  pub store_message : StoreError → Text
  pub meddle : ℕ → Db p → Db p
  pub now : ℕ → ℕ

pub record SettingsInput : Type 0 where
  pub target_language : Option Text
  pub format : Option Text
  pub layout : Option Text
  pub engine : Option Text
  pub model : Option Text
  pub write_beside_source : Option Bool

pub record CreateJobInput : Type 0 where
  pub source_path : Text
  pub target_language : Option Text
  pub format : Option Text
  pub layout : Option Text
  pub engine : Option Text
  pub model : Option Text

pub record DownloadQuery : Type 0 where
  pub format : Option Text
  pub layout : Option Text

-- `parse_layout` of api.rs.
unfoldable pub parse_layout : Text → Option Layout
unfolding contains_text trim to_ascii_lowercase
parse_layout value =
    let key = to_ascii_lowercase (trim value) in
    if contains_text key (codes "translated" ∷ codes "target" ∷ [])
    then some Layout.translated
    else if contains_text key (codes "source" ∷ codes "original" ∷ [])
    then some Layout.source
    else if contains_text key (codes "bilingual" ∷ codes "both" ∷ codes "dual" ∷ [])
    then some Layout.bilingual
    else none

abbrev name_of : Option Language → Option Text
name_of none = none
name_of (some l) = some l.name

unfoldable pub is_completed : Status → Bool
is_completed completed = true
is_completed _ = false

module _ (p : Platform) where
  unfoldable pub error_response : ℕ → Text → Response p
  error_response status message = record { status = status; body = error_body message }

  unfoldable pub bad_request : Text → Response p
  bad_request message = error_response 400 message

  unfoldable pub not_found : Text → Response p
  not_found message = error_response 404 message

  unfoldable pub conflict : Text → Response p
  conflict message = error_response 409 message

  unfoldable pub server_error : Text → Response p
  server_error message = error_response 500 message

  unfoldable pub path_status : PathError → ℕ
  path_status outside_roots = 403
  path_status missing = 404
  path_status not_media = 415

  unfoldable pub path_error : PathError → Response p
  path_error e = error_response (path_status e) (message e)

  abbrev pub success : Body p → Response p
  success body = record { status = 200; body = body }

  -- `engine::source_exists`.
  unfoldable pub source_exists : Files → Text → Bool
  source_exists files path = files.is_file path

  unfoldable pub decorate : Files → Job p → View p
  decorate files job = record {
    job = job;
    source_missing = not (source_exists files job.source_path);
    downloadable = is_completed job.status && ltb 0 job.cue_count;
    language_name = name_of (find job.target_language);
  }

  -- A quoted value in an error message.
  abbrev unknown : String → Text → Text
  unknown what value = codes what ++ codes " `" ++ value ++ codes "`"

  unfoldable pub chosen_format : Option Text → Format → Result (Response p) Format
  chosen_format none kept = ok kept
  chosen_format (some f) kept =
      ok_or (parse_format f) (bad_request (unknown "unknown subtitle format" f))

  unfoldable pub chosen_layout : Option Text → Layout → Result (Response p) Layout
  chosen_layout none kept = ok kept
  chosen_layout (some l) kept = ok_or (parse_layout l) (bad_request (unknown "unknown layout" l))

  unfoldable pub chosen_language : Text → Result (Response p) Language
  chosen_language code = ok_or (find code) (bad_request (unknown "unknown target language" code))

  -- A handler that returns early changes nothing further.
  unfoldable pub answered : Db p → Result (Response p) (Answer p) → Answer p
  answered db (ok answer) = answer
  answered db (err response) = record { response = response; db = db; signals = [] }

  -- The response of both arms.
  unfoldable pub either : Result (Response p) (Response p) → Response p
  either (ok response) = response
  either (err response) = response

  unfoldable pub reply : Response p → Db p → Answer p
  reply response db = record { response = response; db = db; signals = [] }

  module _ (s : Site p) where
    -- The `Err` arms: a store error is a 500.
    unfoldable pub or_500 : {A : Type 0} → Result StoreError A → Result (Response p) A
    or_500 (ok a) = ok a
    or_500 (err e) = err (server_error (s.store_message e))

    -- The three arms of a lookup of a job.
    unfoldable pub or_404 : {A : Type 0} → Result StoreError (Option A) → Result (Response p) A
    or_404 (ok (some a)) = ok a
    or_404 (ok none) = err (not_found (codes "no such job"))
    or_404 (err e) = err (server_error (s.store_message e))

    -- The second lookup of a job, where every other answer is a failure.
    unfoldable pub or_vanished :
        {A : Type 0} → Text → Result StoreError (Option A) → Result (Response p) A
    or_vanished what (ok (some a)) = ok a
    or_vanished what (ok none) = err (server_error what)
    or_vanished what (err e) = err (server_error what)
