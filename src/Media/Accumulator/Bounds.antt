-- ===== src/Media/Accumulator/Bounds.antt =====
-- The lengths of the windows of `WindowAccumulator` in backend/src/media.rs.
use ryu_subtitles.Prelude.{
  ℕ, zero, suc, subst, sym, ◌+◌, ◌-◌, ◌≤◌, ◌<◌, min, ◌≡◌, refl, List, [], ◌∷◌, length, take, drop,
  length-append, length-take, arith, Bool-cases, inl, inr, leb, leb→le, leb_false→lt, All,
  All-append,
}
use ryu_subtitles.Media.Model.{Numbers, frame_len, PendingWindow, WindowAccumulator}
use ryu_subtitles.Media.Accumulator

module _ (n : Numbers) where
  length-drop : (k : ℕ) (xs : List n.F64) → length (drop k xs) ≡ length xs - k
  length-drop zero xs = omega arith
  length-drop (suc k) [] = omega arith
  length-drop (suc k) (x ∷ xs) = omega (arith, length-drop k xs)

  -- The quietest frame is one of the frames that were looked at, or the one it began with.
  quietest-bounds :
      (energies : List n.F64) (low i best stop : ℕ) (best_energy : n.F64)
      → low ≤ best
      → low ≤ i
      → best < stop
      → i + length energies ≤ stop
      → (low ≤ Accumulator.quietest n energies i best best_energy)
        × (Accumulator.quietest n energies i best best_energy < stop)
  unfolding Accumulator.quietest
  quietest-bounds [] low i best stop best_energy a b c d = (a, c)
  quietest-bounds (e ∷ energies) low i best stop best_energy a b c d =
      elim (Bool-cases (n.less e best_energy)) [
        | inl h ↦ rw h (
            quietest-bounds energies low (suc i) i stop e b (omega arith) (omega arith)
              (omega arith))
        | inr h ↦ rw h (
            quietest-bounds energies low (suc i) best stop best_energy a (omega arith) c
              (omega arith))
      ]

  band-length :
      (low high : ℕ) (energies : List n.F64)
      → low < high
      → high ≤ length energies
      → low + length (drop low (take high energies)) ≤ high
  band-length low high energies h k =
      omega (arith, length-drop low (take high energies), length-take high energies k)

  in_band :
      (energies : List n.F64) (low high : ℕ)
      → low < high
      → high ≤ length energies
      → (low ≤ Accumulator.quietest n (drop low (take high energies)) low low n.max64)
        × (Accumulator.quietest n (drop low (take high energies)) low low n.max64 < high)
  in_band energies low high h k =
      quietest-bounds (drop low (take high energies)) low low low high n.max64 (omega arith)
        (omega arith) h (band-length low high energies h k)

  -- A full accumulator is cut behind at least 25.05 and at most 34.95 seconds.
  pub quietest_cut-bounds :
      (acc : WindowAccumulator n)
      → length acc.samples ≡ 560000
      → (400800 ≤ Accumulator.quietest_cut n acc) × (Accumulator.quietest_cut n acc ≤ 559200)
  unfolding Accumulator.quietest_cut
  quietest_cut-bounds acc full =
      let high : ℕ = min 350 (length acc.frame_energy) in
      rw full (elim (Bool-cases (leb high 250)) [
        | inl e ↦ rw e (omega arith, omega arith)
        | inr e ↦
            let (a, b) =
              in_band acc.frame_energy 250 high (leb_false→lt high 250 e) (omega arith) in
            rw e (omega arith, omega arith)
      ])

  -- A window that was cut: 25.05 to 34.95 seconds of samples.
  abbrev pub FitsWindow : PendingWindow n → Type 0
  FitsWindow w = (400800 ≤ length w.samples) × (length w.samples ≤ 559200)

  -- Less than 35 seconds wait to be cut, and every staged window has its length.
  pub record Bounded (acc : WindowAccumulator n) : Type 0 where
    pub waiting : length acc.samples < 560000
    pub staged : All FitsWindow acc.ready

  length-measure :
      (sample : n.I16) (acc : WindowAccumulator n)
      → length (Accumulator.measure n sample acc).samples ≡ length acc.samples + 1
  unfolding Accumulator.measure
  length-measure sample acc = elim (Bool-cases (leb frame_len (acc.current_count + 1))) [
    | inl e ↦ rw e (length-append acc.samples (sample ∷ []))
    | inr e ↦ rw e (length-append acc.samples (sample ∷ []))
  ]

  ready-measure :
      (sample : n.I16) (acc : WindowAccumulator n)
      → (Accumulator.measure n sample acc).ready ≡ acc.ready
  unfolding Accumulator.measure
  ready-measure sample acc = elim (Bool-cases (leb frame_len (acc.current_count + 1))) [
    | inl e ↦ rw e refl
    | inr e ↦ rw e refl
  ]

  length-drop_samples : (k : ℕ) (xs : List n.I16) → length (drop k xs) ≡ length xs - k
  length-drop_samples zero xs = omega arith
  length-drop_samples (suc k) [] = omega arith
  length-drop_samples (suc k) (x ∷ xs) = omega (arith, length-drop_samples k xs)

  cut-Bounded :
      (acc : WindowAccumulator n)
      → length acc.samples ≡ 560000
      → All FitsWindow acc.ready
      → Bounded (Accumulator.cut n acc)
  unfolding Accumulator.cut Accumulator.cut_at
  cut-Bounded acc full h =
      let cut = Accumulator.quietest_cut n acc in
      let (low, high) = quietest_cut-bounds acc full in
      let head = length-take cut acc.samples (omega arith) in
      record {
        waiting = omega (arith, length-drop_samples cut acc.samples);
        staged = All-append FitsWindow acc.ready (_ ∷ []) h ((omega arith, omega arith), tt);
      }

  pub push-Bounded :
      (sample : n.I16) (acc : WindowAccumulator n)
      → Bounded acc
      → Bounded (Accumulator.push n sample acc)
  unfolding Accumulator.push
  push-Bounded sample acc h =
      let measured = Accumulator.measure n sample acc in
      let longer = length-measure sample acc in
      let staged = subst (All FitsWindow) (sym (ready-measure sample acc)) h.staged in
      elim (Bool-cases (leb 560000 (length measured.samples))) [
        | inl e ↦
            let reached = leb→le 560000 (length measured.samples) e in
            rw e (cut-Bounded measured (omega (arith, h.waiting)) staged)
        | inr e ↦
            rw e (record {
              waiting = leb_false→lt 560000 (length measured.samples) e;
              staged = staged;
            })
      ]

  pub push_all-Bounded :
      (samples : List n.I16) (acc : WindowAccumulator n)
      → Bounded acc
      → Bounded (Accumulator.push_all n samples acc)
  unfolding Accumulator.push_all
  push_all-Bounded [] acc h = h
  push_all-Bounded (s ∷ samples) acc h =
      push_all-Bounded samples (Accumulator.push n s acc) (push-Bounded s acc h)
