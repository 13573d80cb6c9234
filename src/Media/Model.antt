-- ===== src/Media/Model.antt =====
-- The data of backend/src/media.rs. The floats `f32` and `f64`, the samples `i16` and the WAV bytes
-- that the crate `hound` writes are parameters.
use ryu_subtitles.Prelude.{ℕ, ◌*◌, ◌/◌, Bool, List, length, mul_u64, add_u64}
use ryu_subtitles.Text.{Text}

abbrev pub target_rate : ℕ
target_rate = 16000

abbrev pub window_secs : ℕ
window_secs = 30

abbrev pub cut_search_secs : ℕ
cut_search_secs = 5

abbrev pub silence_frame_ms : ℕ
silence_frame_ms = 100

-- `f32`, `f64` and `i16`, with the operations that the program uses.
pub record Numbers : Type 1 where
  pub F32 : Type 0
  pub sum : List F32 → F32
  pub divide : F32 → ℕ → F32
  -- `(v * 32767.0).clamp(-32768.0, 32767.0) as i16`.
  pub I16 : Type 0
  pub quantize : F32 → I16
  pub F64 : Type 0
  pub zero64 : F64
  pub max64 : F64
  -- `e + v * v` for `v = f64::from(sample) / 32768.0`.
  pub add_square : F64 → I16 → F64
  pub mean : F64 → ℕ → F64
  pub less : F64 → F64 → Bool
  -- `position + f64::from(rate) / f64::from(TARGET_RATE)`.
  pub advance : F64 → ℕ → F64
  pub floor : F64 → ℕ
  pub ceil : F64 → ℕ
  -- `position - consumed as f64`.
  pub minus : F64 → ℕ → F64
  pub Wav : Type 0
  pub encode_wav : List I16 → Wav

-- Samples in so many seconds.
abbrev pub samples_per : ℕ → ℕ
samples_per secs = target_rate * secs

abbrev pub frame_len : ℕ
frame_len = target_rate * silence_frame_ms / 1000

unfoldable pub samples_to_ms : ℕ → ℕ
samples_to_ms samples = mul_u64 samples 1000 / target_rate

pub record PendingWindow (n : Numbers) : Type 0 where
  pub offset_ms : ℕ
  pub samples : List n.I16

-- `PendingWindow::end_ms`.
unfoldable pub end_ms : {n : Numbers} → PendingWindow n → ℕ
end_ms w = add_u64 w.offset_ms (samples_to_ms (length w.samples))

pub record WindowAccumulator (n : Numbers) : Type 0 where
  pub samples : List n.I16
  pub start_sample : ℕ
  pub frame_energy : List n.F64
  pub current_energy : n.F64
  pub current_count : ℕ
  pub ready : List (PendingWindow n)

pub data MediaError : Type 0 where
  io unsupported decode : Text → MediaError
  no_audio_track : MediaError
