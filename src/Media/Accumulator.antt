-- ===== src/Media/Accumulator.antt =====
-- `WindowAccumulator` of backend/src/media.rs.
pub mod Parts
pub mod Bounds
pub mod Frames
use ryu_subtitles.Prelude.{
  ℕ, zero, suc, ◌+◌, ◌*◌, ◌/◌, ◌-◌, min, Option, none, some, Bool, List, [], ◌∷◌, ◌++◌, length,
  take, drop, leb, ltb, if◌then◌else◌, add_u64,
}
use ryu_subtitles.Media.Model.{
  Numbers, samples_per, frame_len, window_secs, cut_search_secs, samples_to_ms, PendingWindow,
  WindowAccumulator,
}

module _ (n : Numbers) where
  unfoldable pub new : WindowAccumulator n
  new = record {
    samples = [];
    start_sample = 0;
    frame_energy = [];
    current_energy = n.zero64;
    current_count = 0;
    ready = [];
  }

  -- The loop over the frames of the band: the index of the quietest one so far, and its energy.
  unfoldable pub quietest : List n.F64 → (i best : ℕ) → n.F64 → ℕ
  quietest [] i best best_energy = best
  quietest (energy ∷ energies) i best best_energy =
      let lower = n.less energy best_energy in
      quietest energies (suc i) (if lower then i else best) (if lower then energy else best_energy)

  -- `enumerate().take(hi).skip(lo)` as a list, its first index `lo`.
  unfoldable pub quietest_cut : WindowAccumulator n → ℕ
  quietest_cut acc =
      let nominal = samples_per window_secs in
      let lo_sample = samples_per (window_secs - cut_search_secs) in
      let hi_sample = min (samples_per (window_secs + cut_search_secs)) (length acc.samples) in
      let lo_frame = lo_sample / frame_len in
      let hi_frame = min (hi_sample / frame_len) (length acc.frame_energy) in
      let best =
        quietest (drop lo_frame (take hi_frame acc.frame_energy)) lo_frame lo_frame n.max64 in
      if leb hi_frame lo_frame
      then min nominal (length acc.samples)
      else min (best * frame_len + frame_len / 2) (length acc.samples)

  -- `cut`, at an index: the head is staged, the tail stays.
  unfoldable pub cut_at : ℕ → WindowAccumulator n → WindowAccumulator n
  cut_at cut acc =
      let head = take cut acc.samples in
      record {
        samples = drop cut acc.samples;
        start_sample = add_u64 acc.start_sample (length head);
        frame_energy = [];
        current_energy = n.zero64;
        current_count = 0;
        ready =
            acc.ready ++ record { offset_ms = samples_to_ms acc.start_sample; samples = head } ∷ [];
      }

  unfoldable pub cut : WindowAccumulator n → WindowAccumulator n
  cut acc = cut_at (quietest_cut acc) acc

  -- The bookkeeping of the frames for one sample.
  unfoldable pub measure : n.I16 → WindowAccumulator n → WindowAccumulator n
  measure sample acc =
      let energy = n.add_square acc.current_energy sample in
      let count = acc.current_count + 1 in
      if leb frame_len count
      then record acc {
        samples = acc.samples ++ sample ∷ [];
        frame_energy = acc.frame_energy ++ n.mean energy count ∷ [];
        current_energy = n.zero64;
        current_count = 0;
      }
      else record acc {
        samples = acc.samples ++ sample ∷ [];
        current_energy = energy;
        current_count = count;
      }

  unfoldable pub push : n.I16 → WindowAccumulator n → WindowAccumulator n
  push sample acc =
      let measured = measure sample acc in
      if leb (samples_per (window_secs + cut_search_secs)) (length measured.samples)
      then cut measured
      else measured

  -- One `push` for each sample.
  unfoldable pub push_all : List n.I16 → WindowAccumulator n → WindowAccumulator n
  push_all [] acc = acc
  push_all (sample ∷ samples) acc = push_all samples (push sample acc)

  unfoldable pub take_ready : WindowAccumulator n → Option (PendingWindow n) × WindowAccumulator n
  take_ready acc = elim acc.ready [
    | [] ↦ (none, acc)
    | w ∷ ws ↦ (some w, record acc { ready = ws })
  ]

  -- The last window, where nothing is ready.
  unfoldable pub rest_window : WindowAccumulator n → Option (PendingWindow n) × WindowAccumulator n
  rest_window acc = if ltb (length acc.samples) (samples_per 1 / 4) then (none, acc) else (
    some (record { offset_ms = samples_to_ms acc.start_sample; samples = acc.samples }),
    record acc { samples = []; start_sample = add_u64 acc.start_sample (length acc.samples) },
  )

  unfoldable pub take_remainder :
      WindowAccumulator n → Option (PendingWindow n) × WindowAccumulator n
  take_remainder acc = elim acc.ready [
    | [] ↦ rest_window acc
    | w ∷ ws ↦ (some w, record acc { ready = ws })
  ]
