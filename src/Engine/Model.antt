-- ===== src/Engine/Model.antt =====
-- What the worker of backend/src/engine.rs works on. The worker shares the database with the
-- handlers of the requests and with its own progress tasks: what these do to the database before
-- the worker's n-th access is a parameter, and so are the decoder, the speech engine, the gateway,
-- the clock and the file system.
use ryu_subtitles.Prelude.{ℕ, suc, Bool, true, false, Option, List, [], ◌∷◌, ◌++◌, Result, ok, err}
use ryu_subtitles.Text.{Text}
use ryu_subtitles.Cues.Model.{TranscriptSegment}
use ryu_subtitles.Library.{Files, PathError, message}
use ryu_subtitles.Translate.Config.{GatewayConfig}
use ryu_subtitles.Store.Model.{Platform, Db, StoreError}

-- `Window` of backend/src/media.rs; `Wav` is the type of its bytes.
pub record Window (Wav : Type 0) : Type 0 where
  pub offset_ms : ℕ
  pub duration_ms : ℕ
  pub wav : Wav

-- The answer of `ryu_stt::transcribe_wav_detailed`.
pub record Transcription : Type 0 where
  pub text : Text
  pub segments : List TranscriptSegment
  pub words : List TranscriptSegment

-- What others see of a job: the file beside the video and the two events.
pub data Effect : Type 0 where
  wrote_file : Text → Text → Effect
  completed_event : Text → ℕ → Option Text → Effect
  failed_event : Text → Text → Effect

pub record World (p : Platform) : Type 0 where
  pub db : Db p
  -- The number of accesses and calls so far.
  pub time : ℕ
  pub log : List Effect

-- What the worker does not decide.
pub record Around (p : Platform) : Type 1 where
  pub files : Files
  pub meddle : ℕ → Db p → Db p
  pub now : ℕ → ℕ
  -- What the clock reads next, in a method that has read it.
  pub later : ℕ → ℕ
  pub env : Text → Option Text
  pub is_alphabetic : ℕ → Bool
  pub Wav : Type 0
  -- The messages on the channel of the decoder, its error the last.
  pub decode : Text → List (Result Text (Window Wav))
  pub transcribe : ℕ → Wav → Text → Result Text Transcription
  -- The gateway: configuration, system prompt and user message, at a time.
  pub post : GatewayConfig → Text → Text → ℕ → Option (ℕ × Text)
  pub content_of : Text → Option Text
  pub write_file : Text → Text → ℕ → Bool
  pub store_message : StoreError → Text
  pub writing_share : p.Real

-- Why the work on a job stops: an error, or the early `return Ok(())`.
pub data Stop : Type 0 where
  failure : Text → Stop
  quit : Stop

-- A stretch of the worker's code.
abbrev pub Step : Platform → Type 0 → Type 0
Step p A = World p → Result Stop A × World p

-- What follows a step: nothing, if it stopped.
abbrev pub and_then :
    {p : Platform} {A B : Type 0}
    → (A → Step p B)
    → Result Stop A × World p
    → Result Stop B × World p
and_then f (ok x, w) = f x w
and_then f (err e, w) = (err e, w)

infixl 5 ◌>>=◌
unfoldable pub ◌>>=◌ : {p : Platform} {A B : Type 0} → Step p A → (A → Step p B) → Step p B
(m >>= f) w = and_then f (m w)

abbrev pub pure : {p : Platform} {A : Type 0} → A → Step p A
pure x w = (ok x, w)

abbrev pub stop : {p : Platform} {A : Type 0} → Stop → Step p A
stop e w = (err e, w)

-- `if !go { return Ok(()) }`.
abbrev pub go_on : {p : Platform} → Bool → Step p Unit
go_on true = pure tt
go_on false = stop quit

abbrev pub emit : {p : Platform} → Effect → Step p Unit
emit e w = (ok tt, record w { log = w.log ++ e ∷ [] })

-- The time of a call.
abbrev pub tick : {p : Platform} → Step p ℕ
tick w = (ok w.time, record w { time = suc w.time })

abbrev pub attempt : {p : Platform} {A : Type 0} → Result Text A → Step p A
attempt (ok x) = pure x
attempt (err e) = stop (failure e)

abbrev pub attempt_path : {p : Platform} {A : Type 0} → Result PathError A → Step p A
attempt_path (ok x) = pure x
attempt_path (err e) = stop (failure (message e))

module _ {p : Platform} (a : Around p) where
  -- The database as the worker finds it.
  abbrev pub found : World p → Db p
  found w = a.meddle w.time w.db

  abbrev pub settle_access :
      {A : Type 0} → World p → Result StoreError (A × Db p) → Result Stop A × World p
  settle_access w (ok out) = (ok out.0, record { db = out.1; time = suc w.time; log = w.log })
  settle_access w (err e) =
      (err (failure (a.store_message e)), record { db = found w; time = suc w.time; log = w.log })

  -- A write to the store, which gets the time of its clock call.
  unfoldable pub write : {A : Type 0} → (ℕ → Db p → Result StoreError (A × Db p)) → Step p A
  write method w = settle_access w (method (a.now w.time) (found w))

  -- A read, whose failure the caller handles.
  unfoldable pub read : {A : Type 0} → (Db p → A) → Step p A
  read method w = (ok (method (found w)), record { db = found w; time = suc w.time; log = w.log })
