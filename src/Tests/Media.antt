-- ===== src/Tests/Media.antt =====
-- The theorems on the decoder at concrete inputs: natural numbers for the floats, a position in
-- 16000ths of a sample.
use ryu_subtitles.Prelude.{
  ℕ, ◌≤◌, ◌+◌, ◌-◌, ◌*◌, ◌/◌, ◌≡◌, refl, true, some, List, [], ◌∷◌, ok, arith, ltb, leb, length,
}
use ryu_subtitles.Media.Model.{Numbers}
use ryu_subtitles.Media.Accumulator
use ryu_subtitles.Media.Accumulator.Frames.{IsMeasured, push_all-measures}
use ryu_subtitles.Media.Resample
use ryu_subtitles.Media.Resample.Fuel.{Advances, resample-total}
use ryu_subtitles.Media.Decode
use ryu_subtitles.Media.Decode.Windows.{pcm, IsCut, decode_windows-IsCut}

abbrev total : List ℕ → ℕ
total [] = 0
total (x ∷ xs) = x + total xs

abbrev naturals : Numbers
naturals = record {
  F32 = ℕ;
  sum = total;
  divide = λ x k. x / k;
  I16 = ℕ;
  quantize = λ x. x;
  F64 = ℕ;
  zero64 = 0;
  max64 = 1000000;
  add_square = λ e x. e + x * x;
  mean = λ e k. e / k;
  less = ltb;
  advance = λ x rate. x + rate;
  floor = λ x. x / 16000;
  ceil = λ x. (x + 15999) / 16000;
  minus = λ x k. x - k * 16000;
  Wav = List ℕ;
  encode_wav = λ xs. xs;
}

push_all-measures_example :
    IsMeasured naturals [] (Accumulator.push_all naturals (3 ∷ 5 ∷ []) (Accumulator.new naturals))
unfolding Accumulator.new
push_all-measures_example =
    push_all-measures naturals (Accumulator.new naturals) (3 ∷ 5 ∷ [])
      (record { energies = refl; current = refl; count = refl }) (omega arith)

abbrev advances : Advances naturals 8000 2
advances = record {
  Near = λ x. x ≤ 2 * 16000;
  ticks = λ x. 2 * x;
  stays = λ x near inside. omega arith;
  forward = λ x near inside. omega arith;
  rounded = λ x near inside. omega arith;
}

resample-total_example :
    Resample.resample naturals
      (Resample.most_rounds naturals (3 ∷ 5 ∷ []) + 4)
      (3 ∷ 5 ∷ [])
      8000
      0
      0
    ≡ Resample.resample naturals (Resample.most_rounds naturals (3 ∷ 5 ∷ [])) (3 ∷ 5 ∷ []) 8000 0 0
resample-total_example = resample-total naturals 8000 (3 ∷ 5 ∷ []) advances 4 0 0 (omega arith)

abbrev track : Decode.Track
track = record {
  id = 2;
  has_codec = true;
  makes_decoder = true;
  n_frames = some 2;
  sample_rate = some 16000;
}

abbrev film : Decode.Container naturals
film = record {
  tracks = track ∷ [];
  packets = Decode.packet 2 (Decode.frames 2 (3 ∷ 5 ∷ 7 ∷ 9 ∷ []) 2 16000) ∷ [];
  copies = λ buffer samples. leb (length samples) (buffer.0 * buffer.1);
}

decode_windows-IsCut_example :
    IsCut naturals
      (pcm naturals 2 film.packets (Resample.fresh naturals))
      (Decode.decode_windows naturals (λ out. true) (ok film)).1
unfolding Decode.decode_windows Decode.decode_track Decode.select_track Decode.decode_packets
    Decode.unless_stopped Decode.drain Decode.finish Decode.pcm_of Resample.push_mono
    Resample.downmix Resample.chunks_exact Resample.restart Resample.fresh Accumulator.new
    Accumulator.push_all Accumulator.push Accumulator.measure Accumulator.take_ready
    Accumulator.take_remainder Accumulator.rest_window
decode_windows-IsCut_example = decode_windows-IsCut naturals film track refl refl
