-- ===== src/Media/Accumulator/Parts.antt =====
-- The samples and the places of the windows of `WindowAccumulator` in backend/src/media.rs.
use ryu_subtitles.Prelude.{
  ℕ, ◌+◌, ◌≡◌, refl, sym, ap, ◌∙◌, List, [], ◌∷◌, ◌++◌, append_assoc, append-nil, length, take,
  drop, take-append-drop, Bool-cases, inl, inr, leb, add_u64,
}
use ryu_subtitles.Media.Model.{
  Numbers, samples_per, frame_len, window_secs, cut_search_secs, samples_to_ms, PendingWindow,
  WindowAccumulator,
}
use ryu_subtitles.Media.Accumulator

module _ (n : Numbers) where
  -- The samples of the windows one after the other.
  unfoldable pub joined : List (PendingWindow n) → List n.I16
  joined [] = []
  joined (w ∷ ws) = w.samples ++ joined ws

  pub joined-append : (vs ws : List (PendingWindow n)) → joined (vs ++ ws) ≡ joined vs ++ joined ws
  unfolding joined
  joined-append [] ws = refl
  joined-append (v ∷ vs) ws =
      ap (λ s. v.samples ++ s) (joined-append vs ws)
      ∙ sym (append_assoc v.samples (joined vs) (joined ws))

  -- All that an accumulator holds, staged or not.
  abbrev pub held : WindowAccumulator n → List n.I16
  held acc = joined acc.ready ++ acc.samples

  -- The windows stand one after the other from a sample on; the result is the sample behind them.
  unfoldable pub place_end : ℕ → List (PendingWindow n) → ℕ
  place_end start [] = start
  place_end start (w ∷ ws) = place_end (add_u64 start (length w.samples)) ws

  abbrev pub Placed : ℕ → List (PendingWindow n) → Type 0
  Placed start [] = Unit
  Placed start (w ∷ ws) =
      (w.offset_ms ≡ samples_to_ms start) × Placed (add_u64 start (length w.samples)) ws

  pub place_end-append :
      (start : ℕ) (vs ws : List (PendingWindow n))
      → place_end start (vs ++ ws) ≡ place_end (place_end start vs) ws
  unfolding place_end
  place_end-append start [] ws = refl
  place_end-append start (v ∷ vs) ws = place_end-append (add_u64 start (length v.samples)) vs ws

  pub Placed-append :
      (start : ℕ) (vs ws : List (PendingWindow n))
      → Placed start vs
      → Placed (place_end start vs) ws
      → Placed start (vs ++ ws)
  unfolding place_end
  Placed-append start [] ws h k = k
  Placed-append start (v ∷ vs) ws (e, h) k =
      (e, Placed-append (add_u64 start (length v.samples)) vs ws h k)

  -- What holds of an accumulator whose staged windows begin at a sample.
  pub record Follows (start : ℕ) (acc : WindowAccumulator n) : Type 0 where
    pub placed : Placed start acc.ready
    pub reached : place_end start acc.ready ≡ acc.start_sample

  pub cut_at-Follows :
      (start cut : ℕ) (acc : WindowAccumulator n)
      → Follows start acc
      → Follows start (Accumulator.cut_at n cut acc)
  unfolding Accumulator.cut_at
  cut_at-Follows start cut acc h = record {
    placed = Placed-append start acc.ready (_ ∷ []) h.placed (ap samples_to_ms (sym h.reached), tt);
    reached =
        place_end-append start acc.ready (_ ∷ [])
        ∙ unfold place_end in ap (λ s. add_u64 s (length (take cut acc.samples))) h.reached;
  }

  held-cut_at :
      (cut : ℕ) (acc : WindowAccumulator n) → held (Accumulator.cut_at n cut acc) ≡ held acc
  unfolding Accumulator.cut_at
  held-cut_at cut acc =
      let head = take cut acc.samples in
      ap (λ s. s ++ drop cut acc.samples) (joined-append acc.ready (_ ∷ []))
      ∙ append_assoc (joined acc.ready) _ (drop cut acc.samples)
      ∙ ap (λ s. joined acc.ready ++ s)
          (unfold joined in
            ap (λ s. s ++ drop cut acc.samples) (append-nil head)
            ∙ take-append-drop cut acc.samples)

  held-measure :
      (sample : n.I16) (acc : WindowAccumulator n)
      → held (Accumulator.measure n sample acc) ≡ held acc ++ sample ∷ []
  unfolding Accumulator.measure
  held-measure sample acc = elim (Bool-cases (leb frame_len (acc.current_count + 1))) [
    | inl e ↦ rw e (sym (append_assoc (joined acc.ready) acc.samples (sample ∷ [])))
    | inr e ↦ rw e (sym (append_assoc (joined acc.ready) acc.samples (sample ∷ [])))
  ]

  measure-Follows :
      (start : ℕ) (sample : n.I16) (acc : WindowAccumulator n)
      → Follows start acc
      → Follows start (Accumulator.measure n sample acc)
  unfolding Accumulator.measure
  measure-Follows start sample acc h = elim (Bool-cases (leb frame_len (acc.current_count + 1))) [
    | inl e ↦ rw e (record { placed = h.placed; reached = h.reached })
    | inr e ↦ rw e (record { placed = h.placed; reached = h.reached })
  ]

  held-push :
      (sample : n.I16) (acc : WindowAccumulator n)
      → held (Accumulator.push n sample acc) ≡ held acc ++ sample ∷ []
  unfolding Accumulator.push Accumulator.cut
  held-push sample acc =
      let measured = Accumulator.measure n sample acc in
      elim (Bool-cases
        (leb (samples_per (window_secs + cut_search_secs)) (length measured.samples))) [
          | inl e ↦ rw e (held-cut_at _ measured ∙ held-measure sample acc)
          | inr e ↦ rw e (held-measure sample acc)
        ]

  pub push-Follows :
      (start : ℕ) (sample : n.I16) (acc : WindowAccumulator n)
      → Follows start acc
      → Follows start (Accumulator.push n sample acc)
  unfolding Accumulator.push Accumulator.cut
  push-Follows start sample acc h =
      let measured = Accumulator.measure n sample acc in
      elim (Bool-cases
        (leb (samples_per (window_secs + cut_search_secs)) (length measured.samples))) [
          | inl e ↦ rw e (cut_at-Follows start _ measured (measure-Follows start sample acc h))
          | inr e ↦ rw e (measure-Follows start sample acc h)
        ]

  -- Pushing loses no sample, adds none and keeps their order.
  pub held-push_all :
      (samples : List n.I16) (acc : WindowAccumulator n)
      → held (Accumulator.push_all n samples acc) ≡ held acc ++ samples
  unfolding Accumulator.push_all
  held-push_all [] acc = sym (append-nil (held acc))
  held-push_all (s ∷ samples) acc =
      held-push_all samples (Accumulator.push n s acc)
      ∙ ap (λ t. t ++ samples) (held-push s acc)
      ∙ append_assoc (held acc) (s ∷ []) samples

  pub push_all-Follows :
      (start : ℕ) (samples : List n.I16) (acc : WindowAccumulator n)
      → Follows start acc
      → Follows start (Accumulator.push_all n samples acc)
  unfolding Accumulator.push_all
  push_all-Follows start [] acc h = h
  push_all-Follows start (s ∷ samples) acc h =
      push_all-Follows start samples (Accumulator.push n s acc) (push-Follows start s acc h)
