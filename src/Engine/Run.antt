-- ===== src/Engine/Run.antt =====
-- `run_job`, `is_canceled` and how `spawn` ends a run, of backend/src/engine.rs.
use ryu_subtitles.Prelude.{
  ℕ, suc, Bool, true, false, not, Option, none, some, List, [], ◌∷◌, ◌++◌, length, if◌then◌else◌,
  Result, ok, err, ◌==◌,
}
use ryu_subtitles.Text.{Text, codes, is_empty}
use ryu_subtitles.Cues.Model.{Cue, extension}
use ryu_subtitles.Cues.Assemble.{cues_from_segments}
use ryu_subtitles.Cues.Normalize.{normalize}
use ryu_subtitles.Cues.Render.{render}
use ryu_subtitles.Languages.{Language, find}
use ryu_subtitles.Library.{validate_source, sidecar_output_path}
use ryu_subtitles.Translate.Config.{from_env, system_prompt}
use ryu_subtitles.Translate.Pass.{Outside, translate_cues}
use ryu_subtitles.Store.Model.{
  Platform, Job, Settings, StoreError, Status, transcribing, translating, failed, canceled,
}
use ryu_subtitles.Store.Jobs.{
  set_status_if_active, set_progress, set_cues, complete_if_active, set_output_path,
}
use ryu_subtitles.Store.Queue.{get_job, settings}
use ryu_subtitles.Engine.Target.{transcript_is_target}
use ryu_subtitles.Engine.Model.{
  Window, Transcription, wrote_file, completed_event, failed_event, World, Around, Stop, failure,
  quit, Step, ◌>>=◌, pure, stop, go_on, emit, tick, attempt, attempt_path, write, read,
}

abbrev pub canceled_status : Status → Bool
canceled_status canceled = true
canceled_status other = false

-- `is_canceled` on the answer of `get_job`.
abbrev pub canceled_answer : {p : Platform} → Result StoreError (Option (Job p)) → Bool
canceled_answer (ok (some job)) = canceled_status job.status
canceled_answer (ok none) = true
canceled_answer (err e) = true

-- `ok_or_else` on the lookup of the target language.
abbrev pub known : {p : Platform} → Text → Option Language → Step p Language
known target (some language) = pure language
known target none = stop (failure (codes "unknown target language `" ++ target ++ codes "`"))

module _ {p : Platform} (a : Around p) where
  unfoldable pub is_canceled : Text → Step p Bool
  is_canceled id = read a (λ db. canceled_answer (get_job p id db))

  -- `if is_canceled(…) { return Ok(()) }`.
  unfoldable pub unless_canceled : Text → Step p Unit
  unless_canceled id = do gone ← is_canceled id; go_on (not gone)

  -- The status, the progress line and the checks before the transcription.
  unfoldable pub start : Job p → Step p Language
  start job = do
    active ← write a (λ now. set_status_if_active p job.id transcribing none now (a.later now))
    _ ← go_on active
    _ ← write a (λ now. set_progress p job.id p.real_zero (codes "Reading the video") none now)
    _ ← attempt_path (validate_source a.files job.source_path)
    known job.target_language (find job.target_language)

  abbrev pub heard : Result Text Transcription → Result Text Transcription
  heard (ok t) = ok t
  heard (err e) = err (codes "transcription failed: " ++ e)

  -- One window: its cues behind those before it.
  unfoldable pub hear : Job p → Window a.Wav → List Cue → Step p (List Cue)
  hear job window all_cues = do
    _ ← unless_canceled job.id
    time ← tick
    t ← attempt (heard (a.transcribe time window.wav job.engine))
    pure (all_cues ++ cues_from_segments window.offset_ms t.segments t.text window.duration_ms)

  -- The loop over the messages of the decoder.
  unfoldable pub hear_all : Job p → List (Result Text (Window a.Wav)) → List Cue → Step p (List Cue)
  hear_all job [] all_cues = pure all_cues
  hear_all job (err e ∷ messages) all_cues = stop (failure e)
  hear_all job (ok window ∷ messages) all_cues = do
    cues ← hear job window all_cues
    hear_all job messages cues

  -- The normalized transcript is stored; a transcript without cues, whose test is the flag, fails.
  unfoldable pub store_transcript : Job p → Bool → List Cue → Step p (List Cue)
  store_transcript job true all_cues = stop (failure (codes "no speech was found in this file"))
  store_transcript job false all_cues = do
    _ ← write a (λ now. set_cues p job.id all_cues now)
    pure all_cues

  unfoldable pub transcribe : Job p → Step p (List Cue)
  transcribe job = do
    heard_cues ← hear_all job (a.decode job.source_path) []
    _ ← unless_canceled job.id
    store_transcript job (is_empty (normalize heard_cues)) (normalize heard_cues)

  abbrev pub after_poll : Result Stop Bool × World p → Bool × World p
  after_poll (ok b, w) = (b, w)
  after_poll (err e, w) = (true, w)

  -- What the translation pass of a job asks of the world. Its progress report is a task of its own,
  -- so its write is among those that `meddle` does.
  unfoldable pub outside : Job p → Language → Outside
  outside job language = record {
    World = World p;
    send = λ user w. (
      a.post (from_env a.env (if is_empty job.model then none else some job.model))
          (system_prompt language) user w.time,
      record w { time = suc w.time },
    );
    content_of = a.content_of;
    should_cancel = λ w. after_poll (is_canceled job.id w);
    on_progress = λ done total w. w;
  }

  unfoldable pub translation : Job p → Language → List Cue → Step p (Option ℕ × List Cue)
  unfolding outside
  translation job language all_cues w =
      let done = translate_cues (outside job language) all_cues w in (ok (done.0, done.1), done.2)

  abbrev pub finished : Option ℕ → Step p ℕ
  finished (some n) = pure n
  finished none = stop quit

  -- A pass that translated no line at all is a failure.
  unfoldable pub require_translated : ℕ → Step p Unit
  require_translated translated =
      if translated == 0
      then stop (
          failure (
            codes
              "the transcript was created, but no line could be translated — check that the local gateway is running"))
      else pure tt

  -- The translation of a transcript that is not in the target language.
  unfoldable pub translate : Job p → Language → List Cue → Step p (List Cue)
  translate job language all_cues = do
    active ← write a (λ now. set_status_if_active p job.id translating none now (a.later now))
    _ ← go_on active
    done ← translation job language all_cues
    translated ← finished done.0
    _ ← unless_canceled job.id
    _ ← write a (λ now. set_cues p job.id done.1 now)
    _ ← require_translated translated
    pure done.1

  unfoldable pub translate_if_needed : Job p → Language → List Cue → Step p (List Cue)
  translate_if_needed job language all_cues =
      if transcript_is_target a.is_alphabetic all_cues language
      then pure all_cues
      else translate job language all_cues

  -- The commit: it answers whether the job was active until now.
  unfoldable pub commit : Job p → Step p Bool
  commit job = write a (λ now. complete_if_active p job.id now)

  unfoldable pub before_commit : Job p → List Cue → Step p Unit
  before_commit job all_cues = do
    _ ←
        write a (λ now.
          set_progress p job.id a.writing_share (codes "Writing the subtitle file") none now)
    unless_canceled job.id

  unfoldable pub write_copy : Text → Text → ℕ → Step p (Option Text)
  write_copy target rendered time =
      if a.write_file target rendered time
      then (do _ ← emit (wrote_file target rendered); pure (some (a.files.to_string_lossy target)))
      else pure none

  -- The copy beside the video, if the settings ask for it: its path, or none if it failed.
  unfoldable pub write_beside : Job p → Text → Settings → Step p (Option Text)
  write_beside job rendered s =
      if not s.write_beside_source
      then pure none
      else let target =
          sidecar_output_path a.files job.source_path job.target_language (extension job.format) in
        (do time ← tick; write_copy target rendered time)

  -- What follows the commit.
  unfoldable pub publish : Job p → List Cue → Step p Unit
  publish job all_cues = do
    s ← read a (settings p)
    beside ← write_beside job (render all_cues job.format job.layout) s
    _ ← write a (λ now. set_output_path p job.id beside now)
    emit (completed_event job.id (length all_cues) beside)

  -- All of the work before the commit.
  unfoldable pub prepare : Job p → Step p (List Cue)
  prepare job = do
    language ← start job
    heard_cues ← transcribe job
    all_cues ← translate_if_needed job language heard_cues
    _ ← before_commit job all_cues
    pure all_cues

  unfoldable pub work : Job p → Step p Unit
  work job = do
    all_cues ← prepare job
    committed ← commit job
    _ ← go_on committed
    publish job all_cues

  -- The early returns are successes.
  abbrev pub close : Result Stop Unit → Result Text Unit
  close (ok t) = ok t
  close (err quit) = ok tt
  close (err (failure e)) = err e

  unfoldable pub run_job : Job p → World p → Result Text Unit × World p
  run_job job w = let done = work job w in (close done.0, done.1)

  abbrev pub told : Result Stop Bool → Bool
  told (ok b) = b
  told (err e) = false

  -- How `spawn` ends a run.
  unfoldable pub settle_run : Job p → Result Text Unit → World p → World p
  settle_run job (ok t) w = w
  settle_run job (err e) w =
      let marked =
        write a (λ now. set_status_if_active p job.id failed (some e) now (a.later now)) w in
      if told marked.0 then (emit (failed_event job.id e) marked.1).1 else marked.1

  unfoldable pub run_and_settle : Job p → World p → World p
  run_and_settle job w = let done = run_job job w in settle_run job done.0 done.1
