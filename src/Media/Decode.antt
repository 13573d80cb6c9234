-- ===== src/Media/Decode.antt =====
-- `decode_windows` of backend/src/media.rs. Opening, probing and decoding are the crate `symphonia`'s:
-- a container is the tracks and the packets that it gives.
pub mod Between
pub mod Windows
use ryu_subtitles.Prelude.{
  ℕ, zero, suc, ◌+◌, ◌*◌, ◌/◌, max, Option, none, some, Bool, true, false, not, ◌&&◌, List, [], ◌∷◌,
  ◌++◌, length, map, ltb, ◌==◌, if◌then◌else◌, mul_u64, Result, ok, err,
}
use ryu_subtitles.Text.{Text}
use ryu_subtitles.Media.Model.{
  Numbers, PendingWindow, WindowAccumulator, MediaError, io, unsupported, decode, no_audio_track,
  end_ms,
}
use ryu_subtitles.Media.Accumulator
use ryu_subtitles.Media.Resample
use ryu_subtitles.Media.Resample.{Resampler}

pub data SymphoniaError : Type 0 where
  unsupported_error io_error other_error : Text → SymphoniaError

unfoldable pub map_symphonia_error : SymphoniaError → MediaError
map_symphonia_error (unsupported_error what) = unsupported what
map_symphonia_error (io_error e) = io e
map_symphonia_error (other_error e) = decode e

-- How a decode stops short: with an error, or in the panic of a copy into the sample buffer.
pub data Failed : Type 0 where
  failure : MediaError → Failed
  panicked : Failed

-- What a `SampleBuffer` is made for: a capacity in frames, and a number of channels.
abbrev pub SampleBuffer : Type 0
SampleBuffer = ℕ × ℕ

-- What the decoder makes of a packet: its capacity, its interleaved samples, their channels and their
-- rate.
pub data Decoded (n : Numbers) : Type 0 where
  frames : ℕ → List n.F32 → ℕ → ℕ → Decoded n
  corrupt : Decoded n
  broken : SymphoniaError → Decoded n

-- What `next_packet` returns; an end of the list is an end of the stream.
pub data PacketRead (n : Numbers) : Type 0 where
  packet : ℕ → Decoded n → PacketRead n
  end_of_stream : PacketRead n
  reset_required : PacketRead n
  failed_read : SymphoniaError → PacketRead n

pub record Track : Type 0 where
  pub id : ℕ
  -- Whether its codec is one that a decoder can be made for.
  pub has_codec : Bool
  pub makes_decoder : Bool
  pub n_frames : Option ℕ
  pub sample_rate : Option ℕ

pub record Container (n : Numbers) : Type 0 where
  pub tracks : List Track
  pub packets : List (PacketRead n)
  -- Whether `copy_interleaved_ref` puts the samples into the buffer; if not, it panics.
  pub copies : SampleBuffer → List n.F32 → Bool

unfoldable pub select_track : List Track → Option Track
select_track [] = none
select_track (t ∷ ts) = if t.has_codec && t.makes_decoder then some t else select_track ts

unfoldable pub declared_ms : Option ℕ → Option ℕ → Option ℕ
declared_ms (some n) (some rate) = if ltb 0 rate then some (mul_u64 n 1000 / rate) else none
declared_ms none rate = none
declared_ms (some n) none = none

module _ (n : Numbers) where
  -- The windows that were handed to `on_window`, and how the call ends: an early stop is a success.
  abbrev pub Handed : Type 0
  Handed = List (PendingWindow n)

  -- The `while` loop over the staged windows; the flag is false where `on_window` stops the decode.
  -- The fuel is their number.
  unfoldable pub drain :
      (Handed → Bool) → ℕ → WindowAccumulator n → Handed → Bool × WindowAccumulator n × Handed
  drain accept zero acc out = (true, acc, out)
  drain accept (suc fuel) acc out =
      let taken = Accumulator.take_ready n acc in
      elim taken.0 [
        | none ↦ (true, acc, out)
        | some w ↦ elim (accept (out ++ w ∷ [])) [
          | true ↦ drain accept fuel taken.1 (out ++ w ∷ [])
          | false ↦ (false, taken.1, out ++ w ∷ [])
        ]
      ]

  unfoldable pub finish : WindowAccumulator n → Handed → Handed
  finish acc out = elim (Accumulator.take_remainder n acc).0 [ none ↦ out | some w ↦ out ++ w ∷ [] ]

  -- The samples of a decoded packet of the track go through the resampler.
  unfoldable pub pcm_of : List n.F32 → ℕ → ℕ → Resampler n → List n.I16 × Resampler n
  pcm_of samples channels rate r =
      Resample.push_mono n (Resample.downmix n samples (max channels 1)) rate r

  -- `get_or_insert_with`: the first packet of the track decides the buffer.
  abbrev pub buffer_for : Option SampleBuffer → SampleBuffer → SampleBuffer
  buffer_for (some buf) new = buf
  buffer_for none new = new

  -- What follows the `while` loop: an early return, or the rest of the packets.
  unfoldable pub unless_stopped :
      Bool × WindowAccumulator n × Handed
      → (WindowAccumulator n → Handed → Result Failed Unit × Handed)
      → Result Failed Unit × Handed
  unless_stopped (false, acc, out) rest = (ok tt, out)
  unless_stopped (true, acc, out) rest = rest acc out

  -- The loop over the packets.
  unfoldable pub decode_packets :
      (Handed → Bool)
      → (SampleBuffer → List n.F32 → Bool)
      → (track_id : ℕ) → List (PacketRead n)
      → Option SampleBuffer
      → Resampler n
      → WindowAccumulator n
      → Handed
      → Result Failed Unit × Handed
  decode_packets accept copies track_id [] buf r acc out = (ok tt, finish acc out)
  decode_packets accept copies track_id (end_of_stream ∷ ps) buf r acc out = (ok tt, finish acc out)
  decode_packets accept copies track_id (reset_required ∷ ps) buf r acc out =
      (ok tt, finish acc out)
  decode_packets accept copies track_id (failed_read e ∷ ps) buf r acc out =
      (err (failure (map_symphonia_error e)), out)
  decode_packets accept copies track_id (packet id corrupt ∷ ps) buf r acc out =
      decode_packets accept copies track_id ps buf r acc out
  decode_packets accept copies track_id (packet id (broken e) ∷ ps) buf r acc out =
      elim (id == track_id) [
        | false ↦ decode_packets accept copies track_id ps buf r acc out
        | true ↦ (err (failure (map_symphonia_error e)), out)
      ]
  decode_packets accept copies track_id (packet id (frames capacity samples channels rate) ∷ ps) buf
        r acc out =
      elim (id == track_id) [
        | false ↦ decode_packets accept copies track_id ps buf r acc out
        | true ↦
            let held = buffer_for buf (capacity, channels) in
            elim (copies held samples) [
              | false ↦ (err panicked, out)
              | true ↦
                  let made = pcm_of samples channels rate r in
                  let acc' = Accumulator.push_all n made.0 acc in
                  unless_stopped (drain accept (length acc'.ready) acc' out)
                    (decode_packets accept copies track_id ps (some held) made.1)
            ]
      ]

  -- The calls of `on_progress`, each before its window.
  unfoldable pub reported : Option ℕ → Handed → List (ℕ × Option ℕ)
  reported total out = map (λ w. (end_ms w, total)) out

  abbrev pub Outcome : Type 0
  Outcome = Result Failed Unit × Handed × List (ℕ × Option ℕ)

  -- The decode of the track that was found.
  unfoldable pub decode_track : (Handed → Bool) → Container n → Option Track → Outcome
  decode_track accept c none = (err (failure no_audio_track), [], [])
  decode_track accept c (some t) =
      let done =
        decode_packets accept c.copies t.id c.packets none (Resample.fresh n) (Accumulator.new n)
          [] in
      (done.0, done.1, reported (declared_ms t.n_frames t.sample_rate) done.1)

  -- What opening and probing gave: the container, or an error.
  unfoldable pub decode_windows : (Handed → Bool) → Result MediaError (Container n) → Outcome
  decode_windows accept (err e) = (err (failure e), [], [])
  decode_windows accept (ok c) = decode_track accept c (select_track c.tracks)
