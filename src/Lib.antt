-- ===== src/Lib.antt =====
-- The subtitles sidecar: a program that transcribes a video on this machine, translates the
-- transcript through a local gateway, and writes a timed .srt or .vtt file beside the video.
--
-- A job is created in the store (backend/src/store.rs), a row of the table `jobs`. The worker
-- (backend/src/engine.rs) takes the oldest queued job, checks its path against the containment roots
-- (backend/src/library.rs), decodes the video into windows (backend/src/media.rs), gets segments for
-- each from a speech engine, makes cues of them (backend/src/cues.rs), translates the cues in batches
-- (backend/src/translate.rs) into a language of a closed table (backend/src/languages.rs), completes
-- the job, and only then writes the file and sends an event. Requests can cancel, retry or delete the
-- job at any time between the worker's accesses of the database.
--
-- Files, and what each models:
--   Prelude, Text   numbers, lists, results; `str` and `char` as lists of Unicode scalar values
--   Cues            backend/src/cues.rs. Model: Cue, Layout, Format. Clean: clean. Break: best_break,
--                   split_text, wrap. Assemble: split_long, cues_from_segments. Normalize: normalize.
--                   Timestamp: timestamp. Render: render_srt, render_vtt, render.
--   Store           backend/src/store.rs. Model: Status, Job, Settings, the rows. Rows: UPDATE and
--                   SELECT on the rows, row_to_job. Jobs: the methods that write. Queue: those that
--                   read. Machine: the life of a job as an abstract machine. A method is a function
--                   from the database to its answer and the database behind it; a statement that
--                   fails leaves the database as it was.
--   Languages       backend/src/languages.rs
--   Translate       backend/src/translate.rs. Config: from_env, system_prompt. Reply: render_batch,
--                   parse_reply. Pass: complete, translate_cues.
--   Library         backend/src/library.rs, is_media_path of backend/src/media.rs, and
--                   backend/src/paths.rs
--   Media           backend/src/media.rs. Model: the data. Accumulator: WindowAccumulator. Resample:
--                   downmix, Resampler. Decode: decode_windows.
--   Api             backend/src/api.rs. Model: the requests and the responses. Jobs, Download, Settings:
--                   the handlers. Routes: routes. Documented: the paths of the utoipa attributes. A
--                   handler is a function from the database to its answer: the response, the database
--                   behind it and what else it does.
--   Server          the bearer gate of backend/src/main.rs
--   Engine          backend/src/engine.rs. Run: run_job and is_canceled, as steps on a world that is
--                   the database, the time and the log of what others see. Worker: spawn.
--                   Target: transcript_is_target, clock.
--   Tests           the theorems at concrete inputs
-- The other children of a component hold its proofs and are named for what they prove.
--
-- Bounds and fuel. Numbers are unbounded, and u64 sums and products are written out modulo 2 ^ 64, as
-- a release build computes them; theorems on times state the room that they need. `split_text` has
-- one round of fuel more than the text has characters, since a round takes one at least; the loop of
-- the resampler has 32000 for each sample that it holds and one more, since a round advances by a
-- 16000th of a sample at least, less a rounding that is under half of it. `chunks` and `chunks_exact` have one unit for each element of the list that they cut, and `drain` one for each
-- window that is staged. The other loops are structural.
--
-- Parameters: the sealing of columns, the JSON forms and `f64` (Platform of Store/Model.antt), the
-- file system and `std::path` with its lossy texts (Files of Library.antt), the gateway, the polls and the progress report
-- of a translation pass (Outside of Translate/Pass.antt), and the decoder, the speech engine, the
-- clock and whatever other tasks do to the database between two accesses of the worker (Around of
-- Engine/Model.antt). The worker's own progress tasks are among these tasks. For the handlers, the
-- same and the messages of the store's errors (Site of Api/Model.antt); for the gate, the comparison
-- of tokens; for the decoder, the floats, the samples and the WAV bytes (Numbers of Media/Model.antt)
-- and the tracks, packets, decoded frames and the sample buffer of the crate symphonia (Container of
-- Media/Decode.antt).
--
-- Not modelled: opening and migrating the SQLite file and its keys, failures of SQLite itself, the
-- start-up and the health probe, reading queries and bodies of requests, the generated API document
-- but for its paths, the waits of the worker, the addresses of the speech engines, the notification
-- texts, and the crates under crates/core, which belong to the parent project. Log lines are left
-- out everywhere.
pub mod Prelude
pub mod Text
pub mod Cues
pub mod Store
pub mod Languages
pub mod Translate
pub mod Library
pub mod Media
pub mod Engine
pub mod Tests
pub mod Api
pub mod Server
