-- ===== src/Media/Resample.antt =====
-- `downmix` and `Resampler` of backend/src/media.rs. `Resampler::push` hands its samples to the
-- accumulator one by one; here it returns them, in that order.
pub mod Fuel
use ryu_subtitles.Prelude.{
  ℕ, zero, suc, ◌+◌, ◌-◌, ◌*◌, max, min, List, [], ◌∷◌, ◌++◌, length, take, drop, map, leb, ltb,
  ◌==◌, Bool, if◌then◌else◌,
}
use ryu_subtitles.Media.Model.{Numbers, target_rate}

module _ (n : Numbers) where
  -- `chunks_exact`: a part at the end that is no whole frame is dropped.
  unfoldable pub chunks_exact : ℕ → ℕ → List n.F32 → List (List n.F32)
  chunks_exact zero size samples = []
  chunks_exact (suc fuel) size samples =
      let rest = chunks_exact fuel size (drop size samples) in
      if ltb (length samples) size then [] else take size samples ∷ rest

  unfoldable pub downmix : List n.F32 → ℕ → List n.F32
  downmix interleaved channels =
      if leb channels 1
      then interleaved
      else map (λ frame. n.divide (n.sum frame) channels)
          (chunks_exact (length interleaved) channels interleaved)

  pub record Resampler : Type 0 where
    pub carry : List n.F32
    pub position : n.F64
    pub rate : ℕ

  unfoldable pub fresh : Resampler
  fresh = record { carry = []; position = n.zero64; rate = 0 }

  -- What a run of the loop leaves: its samples, the position, and `consumed`.
  pub record Run : Type 0 where
    pub samples : List n.I16
    pub position : n.F64
    pub consumed : ℕ

  -- The sample at a position: the average of the span that it covers.
  unfoldable pub box_average : List n.F32 → n.F64 → n.F64 → n.I16
  box_average carry start end =
      let lo = n.floor start in
      let hi = max (min (n.ceil end) (length carry)) (lo + 1) in
      let span = take (hi - lo) (drop lo carry) in n.quantize (n.divide (n.sum span) (length span))

  -- The loop of `push`.
  unfoldable pub resample : ℕ → List n.F32 → ℕ → n.F64 → ℕ → Run
  resample zero carry rate position consumed = record {
    samples = [];
    position = position;
    consumed = consumed;
  }
  resample (suc fuel) carry rate position consumed =
      let end = n.advance position rate in
      let rest = resample fuel carry rate end (n.floor position) in
      if ltb (length carry) (n.ceil end)
      then record { samples = []; position = position; consumed = consumed }
      else record rest { samples = box_average carry position end ∷ rest.samples }

  -- One output sample spans a 16000th of an input sample at least; a sum of `f64` may be rounded down,
  -- but by less than half of that.
  abbrev pub most_rounds : List n.F32 → ℕ
  most_rounds carry = length carry * (2 * target_rate) + 1

  unfoldable pub restart : ℕ → Resampler → Resampler
  restart rate r =
      if rate == r.rate then r else record { carry = []; position = n.zero64; rate = rate }

  unfoldable pub convert : List n.F32 → Resampler → List n.I16 × Resampler
  convert mono r =
      let carry = r.carry ++ mono in
      let run = resample (most_rounds carry) carry r.rate r.position 0 in
      (
        run.samples,
        (if ltb 0 run.consumed
            then record {
              carry = drop run.consumed carry;
              position = n.minus run.position run.consumed;
              rate = r.rate;
            }
            else record { carry = carry; position = run.position; rate = r.rate }),
      )

  unfoldable pub push_mono : List n.F32 → ℕ → Resampler → List n.I16 × Resampler
  push_mono mono rate r =
      if rate == 0
      then ([], r)
      else if rate == target_rate
      then (map n.quantize mono, restart rate r)
      else convert mono (restart rate r)
