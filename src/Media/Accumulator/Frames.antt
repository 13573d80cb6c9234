-- ===== src/Media/Accumulator/Frames.antt =====
-- What the frame energies of `WindowAccumulator` in backend/src/media.rs measure.
use ryu_subtitles.Prelude.{
  ◌+◌, ◌<◌, ◌≡◌, refl, sym, ap, ap₂, subst, ◌∙◌, List, [], ◌∷◌, ◌++◌, append_assoc, append-nil, map,
  map-append, length, length-append, arith, Bool-cases, inl, inr, leb, leb→le, leb_false→lt, All,
  All-append,
}
use ryu_subtitles.Media.Model.{Numbers, frame_len, WindowAccumulator}
use ryu_subtitles.Media.Accumulator

module _ (n : Numbers) where
  -- The energy of samples, from `e` on.
  abbrev pub energy_from : n.F64 → List n.I16 → n.F64
  energy_from e [] = e
  energy_from e (s ∷ samples) = energy_from (n.add_square e s) samples

  abbrev pub energy : List n.I16 → n.F64
  energy samples = energy_from n.zero64 samples

  energy_from-append :
      (e : n.F64) (samples : List n.I16) (s : n.I16)
      → energy_from e (samples ++ s ∷ []) ≡ n.add_square (energy_from e samples) s
  energy_from-append e [] s = refl
  energy_from-append e (x ∷ samples) s = energy_from-append (n.add_square e x) samples s

  abbrev pub mean_energy : List n.I16 → n.F64
  mean_energy frame = n.mean (energy frame) (length frame)

  abbrev pub concat : List (List n.I16) → List n.I16
  concat [] = []
  concat (f ∷ fs) = f ++ concat fs

  concat-append : (fs : List (List n.I16)) (f : List n.I16) → concat (fs ++ f ∷ []) ≡ concat fs ++ f
  concat-append [] f = append-nil f
  concat-append (g ∷ fs) f =
      ap (λ t. g ++ t) (concat-append fs f) ∙ sym (append_assoc g (concat fs) f)

  -- The samples of an accumulator are those of `tail`, which are not measured, then whole frames of
  -- 100 ms, whose mean energies are its frame energies, then a part of a frame.
  pub record IsMeasured (tail : List n.I16) (acc : WindowAccumulator n) : Type 0 where
    pub frames : List (List n.I16)
    pub rest : List n.I16
    pub whole : acc.samples ≡ tail ++ (concat frames ++ rest)
    pub full : All (λ f. length f ≡ frame_len) frames
    pub energies : acc.frame_energy ≡ map mean_energy frames
    pub current : acc.current_energy ≡ energy rest
    pub count : acc.current_count ≡ length rest
    pub short : length rest < frame_len

  longer :
      (tail : List n.I16) (frames : List (List n.I16)) (rest samples : List n.I16) (s : n.I16)
      → samples ≡ tail ++ (concat frames ++ rest)
      → samples ++ s ∷ [] ≡ tail ++ (concat frames ++ (rest ++ s ∷ []))
  longer tail frames rest samples s h =
      ap (λ t. t ++ s ∷ []) h
      ∙ append_assoc tail (concat frames ++ rest) (s ∷ [])
      ∙ ap (λ t. tail ++ t) (append_assoc (concat frames) rest (s ∷ []))

  measure-IsMeasured :
      (tail : List n.I16) (s : n.I16) (acc : WindowAccumulator n)
      → IsMeasured tail acc
      → IsMeasured tail (Accumulator.measure n s acc)
  unfolding Accumulator.measure
  measure-IsMeasured tail s acc h =
      let more = longer tail h.frames h.rest acc.samples s h.whole in
      let len : length (h.rest ++ s ∷ []) ≡ length h.rest + 1 = length-append h.rest (s ∷ []) in
      let sum : n.add_square acc.current_energy s ≡ energy (h.rest ++ s ∷ []) =
        ap (λ e. n.add_square e s) h.current ∙ sym (energy_from-append n.zero64 h.rest s) in
      elim (Bool-cases (leb frame_len (acc.current_count + 1))) [
        | inl e ↦
            let reached = leb→le frame_len (acc.current_count + 1) e in
            rw e (record {
              frames = h.frames ++ (h.rest ++ s ∷ []) ∷ [];
              rest = [];
              whole =
                  more
                  ∙ ap (λ t. tail ++ t)
                      (sym (concat-append h.frames (h.rest ++ s ∷ []))
                        ∙ sym (append-nil (concat (h.frames ++ (h.rest ++ s ∷ []) ∷ []))));
              full =
                  All-append (λ f. length f ≡ frame_len) h.frames (_ ∷ []) h.full
                    (omega (arith, len, h.count, h.short), tt);
              energies =
                  ap₂ (λ es m. es ++ m ∷ []) h.energies
                    (ap₂ n.mean sum (omega (arith, len, h.count)))
                  ∙ sym (map-append mean_energy h.frames (_ ∷ []));
              current = refl;
              count = refl;
              short = omega arith;
            })
        | inr e ↦
            let less = leb_false→lt frame_len (acc.current_count + 1) e in
            rw e (record {
              frames = h.frames;
              rest = h.rest ++ s ∷ [];
              whole = more;
              full = h.full;
              energies = h.energies;
              current = sum;
              count = omega (arith, len, h.count);
              short = omega (arith, len, h.count);
            })
      ]

  length-measured :
      (s : n.I16) (acc : WindowAccumulator n)
      → length (Accumulator.measure n s acc).samples ≡ length acc.samples + 1
  unfolding Accumulator.measure
  length-measured s acc = elim (Bool-cases (leb frame_len (acc.current_count + 1))) [
    | inl e ↦ rw e (length-append acc.samples (s ∷ []))
    | inr e ↦ rw e (length-append acc.samples (s ∷ []))
  ]

  push_uncut :
      (s : n.I16) (acc : WindowAccumulator n)
      → length acc.samples + 1 < 560000
      → Accumulator.push n s acc ≡ Accumulator.measure n s acc
  unfolding Accumulator.push
  push_uncut s acc h =
      elim (Bool-cases (leb 560000 (length (Accumulator.measure n s acc).samples))) [
        | inl e ↦ absurd (omega (arith, leb→le 560000 _ e, length-measured s acc))
        | inr e ↦ rw e refl
      ]

  push_all-IsMeasured :
      (tail : List n.I16) (samples : List n.I16) (acc : WindowAccumulator n)
      → length acc.samples + length samples < 560000
      → IsMeasured tail acc
      → IsMeasured tail (Accumulator.push_all n samples acc)
  unfolding Accumulator.push_all
  push_all-IsMeasured tail [] acc k h = h
  push_all-IsMeasured tail (s ∷ samples) acc k h =
      let same = push_uncut s acc (omega arith) in
      let len = length-measured s acc in
      push_all-IsMeasured tail samples (Accumulator.push n s acc)
        (subst (λ a. length a.samples + length samples < 560000) (sym same) (omega (arith, len)))
        (subst (IsMeasured tail) (sym same) (measure-IsMeasured tail s acc h))

  -- An accumulator with no measurement, as the first one and as every cut leaves it.
  pub record IsFresh (acc : WindowAccumulator n) : Type 0 where
    pub energies : acc.frame_energy ≡ []
    pub current : acc.current_energy ≡ n.zero64
    pub count : acc.current_count ≡ 0

  pub cut-IsFresh : (acc : WindowAccumulator n) → IsFresh (Accumulator.cut n acc)
  unfolding Accumulator.cut Accumulator.cut_at
  cut-IsFresh acc = record { energies = refl; current = refl; count = refl }

  -- Until the next cut, the frame energies of a fresh accumulator are the mean energies of the
  -- consecutive frames of 100 ms of the samples pushed since, behind those that it held before: a
  -- tail that a cut leaves is not measured, and the first frame is the one behind it.
  pub push_all-measures :
      (acc : WindowAccumulator n) (samples : List n.I16)
      → IsFresh acc
      → length acc.samples + length samples < 560000
      → IsMeasured acc.samples (Accumulator.push_all n samples acc)
  push_all-measures acc samples fresh k = push_all-IsMeasured acc.samples samples acc k (record {
    frames = [];
    rest = [];
    whole = sym (append-nil acc.samples);
    full = tt;
    energies = fresh.energies;
    current = fresh.current;
    count = fresh.count;
    short = omega arith;
  })
