-- ===== src/Media/Decode/Windows.antt =====
-- The windows that `decode_windows` of backend/src/media.rs hands over, against the samples of the
-- track.
use ryu_subtitles.Prelude.{
  Bool, none, Option, ℕ, ◌≤◌, ◌<◌, ◌≡◌, refl, sym, ap, subst, ◌∙◌, true, false, some, List, [], ◌∷◌,
  ◌++◌, append-nil, length, arith, Bool-cases, inl, inr, ltb, ltb→lt, ltb_false→le, ◌==◌, All,
  Result, ok,
}
use ryu_subtitles.Media.Model.{Numbers, samples_to_ms, PendingWindow, WindowAccumulator}
use ryu_subtitles.Media.Accumulator
use ryu_subtitles.Media.Accumulator.Parts.{joined, joined-append, place_end, Placed, Placed-append}
use ryu_subtitles.Media.Accumulator.Bounds.{FitsWindow}
use ryu_subtitles.Media.Resample
use ryu_subtitles.Media.Resample.{Resampler}
use ryu_subtitles.Media.Decode
use ryu_subtitles.Media.Decode.Between.{
  IsBetween, always, emptied, drain-always, feed-IsBetween, feed-samples,
}

module _ (n : Numbers) where
  -- The samples of the track, packet by packet, to the end of its stream or to a failure.
  unfoldable pub pcm : ℕ → List (Decode.PacketRead n) → Resampler n → List n.I16
  pcm track_id [] r = []
  pcm track_id (Decode.end_of_stream ∷ ps) r = []
  pcm track_id (Decode.reset_required ∷ ps) r = []
  pcm track_id (Decode.failed_read e ∷ ps) r = []
  pcm track_id (Decode.packet id Decode.corrupt ∷ ps) r = pcm track_id ps r
  pcm track_id (Decode.packet id (Decode.broken e) ∷ ps) r = elim (id == track_id) [
    | false ↦ pcm track_id ps r
    | true ↦ []
  ]
  pcm track_id (Decode.packet id (Decode.frames capacity samples channels rate) ∷ ps) r =
      elim (id == track_id) [
        | false ↦ pcm track_id ps r
        | true ↦
            let made = Decode.pcm_of n samples channels rate r in made.0 ++ pcm track_id ps made.1
      ]

  -- A last window: a quarter of a second at least.
  abbrev pub FitsLast : PendingWindow n → Type 0
  FitsLast w = (4000 ≤ length w.samples) × (length w.samples < 560000)

  -- `out` cuts the samples `whole` into windows: they stand one after the other from the start of the
  -- media, each but the last one 25.05 to 34.95 seconds long, and hold all the samples but less than a
  -- quarter of a second at the end.
  pub record IsCut (whole : List n.I16) (out : List (PendingWindow n)) : Type 0 where
    pub cuts : List (PendingWindow n)
    pub last : List (PendingWindow n)
    pub left : List n.I16
    pub parts : out ≡ cuts ++ last
    pub long : All (FitsWindow n) cuts
    pub final : All FitsLast last
    pub single : length last ≤ 1
    pub samples : joined n out ++ left ≡ whole
    pub dropped : length left < 4000
    pub placed : Placed n 0 out

  finish_short :
      (acc : WindowAccumulator n) (out : List (PendingWindow n))
      → IsBetween n acc out
      → length acc.samples < 4000
      → IsCut (joined n out ++ acc.samples) out
  finish_short acc out h short = record {
    cuts = out;
    last = [];
    left = acc.samples;
    parts = sym (append-nil out);
    long = h.long;
    final = tt;
    single = omega arith;
    samples = refl;
    dropped = short;
    placed = h.placed;
  }

  abbrev last_window : WindowAccumulator n → PendingWindow n
  last_window acc = record { offset_ms = samples_to_ms acc.start_sample; samples = acc.samples }

  start_of :
      (acc : WindowAccumulator n) (out : List (PendingWindow n))
      → IsBetween n acc out
      → place_end n 0 out ≡ acc.start_sample
  start_of acc out h =
      let e : place_end n (place_end n 0 out) acc.ready ≡ place_end n 0 out =
        unfold place_end in ap (place_end n (place_end n 0 out)) h.empty in
      sym e ∙ h.follows.reached

  finish_long :
      (acc : WindowAccumulator n) (out : List (PendingWindow n))
      → IsBetween n acc out
      → 4000 ≤ length acc.samples
      → IsCut (joined n out ++ acc.samples) (out ++ last_window acc ∷ [])
  finish_long acc out h long = record {
    cuts = out;
    last = last_window acc ∷ [];
    left = [];
    parts = refl;
    long = h.long;
    final = ((long, h.bounded.waiting), tt);
    single = omega arith;
    samples =
        append-nil _
        ∙ joined-append n out (last_window acc ∷ [])
        ∙ unfold joined in ap (λ t. joined n out ++ t) (append-nil acc.samples);
    dropped = omega arith;
    placed =
        Placed-append n 0 out (last_window acc ∷ []) h.placed
          (ap samples_to_ms (sym (start_of acc out h)), tt);
  }

  finish-emptied :
      (acc : WindowAccumulator n) (out : List (PendingWindow n))
      → IsBetween n acc out
      → IsCut (joined n out ++ acc.samples) (Decode.finish n (emptied n acc) out)
  unfolding Decode.finish Accumulator.take_remainder Accumulator.rest_window
  finish-emptied acc out h = elim (Bool-cases (ltb (length acc.samples) 4000)) [
    | inl e ↦
        rw (e, Decode.finish, Accumulator.take_remainder, Accumulator.rest_window)
          (finish_short acc out h (ltb→lt (length acc.samples) 4000 e))
    | inr e ↦
        rw (e, Decode.finish, Accumulator.take_remainder, Accumulator.rest_window)
          (finish_long acc out h (ltb_false→le (length acc.samples) 4000 e))
  ]

  finish-IsCut :
      (acc : WindowAccumulator n) (out : List (PendingWindow n))
      → IsBetween n acc out
      → IsCut (joined n out ++ acc.samples) (Decode.finish n acc out)
  finish-IsCut acc out h =
      subst (λ a. IsCut (joined n out ++ acc.samples) (Decode.finish n a out))
        (sym (ap (λ ws. record acc { ready = ws }) h.empty)) (finish-emptied acc out h)

  -- What the loop over the packets does with a packet of the track.
  after_feed :
      (made : List n.I16) (acc : WindowAccumulator n) (out : List (PendingWindow n))
      → Decode.drain n
          (always n)
          (length (Accumulator.push_all n made acc).ready)
          (Accumulator.push_all n made acc)
          out
        ≡ (
          true,
          emptied n (Accumulator.push_all n made acc),
          out ++ (Accumulator.push_all n made acc).ready,
        )
  after_feed made acc out =
      drain-always n (Accumulator.push_all n made acc).ready (Accumulator.push_all n made acc) out

  -- A call that hands every window over and ends without an error.
  abbrev Cuts : List n.I16 → Result Decode.Failed Unit × List (PendingWindow n) → Type 0
  Cuts whole r = r.0 ≡ ok tt → IsCut whole r.1

  done-Cuts :
      (acc : WindowAccumulator n) (out : List (PendingWindow n))
      → IsBetween n acc out
      → Cuts (joined n out ++ (acc.samples ++ [])) (ok tt, Decode.finish n acc out)
  done-Cuts acc out h e =
      subst (λ t. IsCut (joined n out ++ t) (Decode.finish n acc out))
        (sym (append-nil acc.samples)) (finish-IsCut acc out h)

  unless_stopped-Cuts :
      (made rest : List n.I16) (acc : WindowAccumulator n) (out : List (PendingWindow n))
      (next : WindowAccumulator n
        → List (PendingWindow n)
        → Result Decode.Failed Unit × List (PendingWindow n))
      → IsBetween n acc out
      → (let fed = Accumulator.push_all n made acc in
          Cuts
            (joined n (out ++ fed.ready) ++ (fed.samples ++ rest))
            (next (emptied n fed) (out ++ fed.ready)))
      → (let fed = Accumulator.push_all n made acc in
          Cuts
            (joined n out ++ (acc.samples ++ (made ++ rest)))
            (Decode.unless_stopped n (Decode.drain n (always n) (length fed.ready) fed out) next))
  unfolding Decode.unless_stopped
  unless_stopped-Cuts made rest acc out next h c =
      let fed = Accumulator.push_all n made acc in
      subst
        (λ d.
          Cuts (joined n out ++ (acc.samples ++ (made ++ rest))) (Decode.unless_stopped n d next))
        (sym (after_feed made acc out))
        (subst (λ whole. Cuts whole (next (emptied n fed) (out ++ fed.ready)))
          (feed-samples n made rest acc out h.empty) c)

  decode_packets-Cuts :
      (copies : Decode.SampleBuffer → List n.F32 → Bool) (track_id : ℕ)
      (ps : List (Decode.PacketRead n)) (buf : Option Decode.SampleBuffer) (r : Resampler n)
      (acc : WindowAccumulator n) (out : List (PendingWindow n))
      → IsBetween n acc out
      → Cuts
          (joined n out ++ (acc.samples ++ pcm track_id ps r))
          (Decode.decode_packets n (always n) copies track_id ps buf r acc out)
  unfolding Decode.decode_packets pcm
  decode_packets-Cuts copies track_id [] buf r acc out h = done-Cuts acc out h
  decode_packets-Cuts copies track_id (Decode.end_of_stream ∷ ps) buf r acc out h =
      done-Cuts acc out h
  decode_packets-Cuts copies track_id (Decode.reset_required ∷ ps) buf r acc out h =
      done-Cuts acc out h
  decode_packets-Cuts copies track_id (Decode.failed_read e ∷ ps) buf r acc out h = λ q. cc
  decode_packets-Cuts copies track_id (Decode.packet id Decode.corrupt ∷ ps) buf r acc out h =
      decode_packets-Cuts copies track_id ps buf r acc out h
  decode_packets-Cuts copies track_id (Decode.packet id (Decode.broken e) ∷ ps) buf r acc out h =
      elim (Bool-cases (id == track_id)) [
        | inl t ↦ rw (t, Decode.decode_packets, pcm) (λ q. cc)
        | inr t ↦
            rw (t, Decode.decode_packets, pcm)
              (decode_packets-Cuts copies track_id ps buf r acc out h)
      ]
  decode_packets-Cuts copies track_id
        (Decode.packet id (Decode.frames capacity samples channels rate) ∷ ps) buf r acc out h =
      let made = Decode.pcm_of n samples channels rate r in
      let fed = Accumulator.push_all n made.0 acc in
      let held = Decode.buffer_for n buf (capacity, channels) in
      elim (Bool-cases (id == track_id)) [
        | inr t ↦
            rw (t, Decode.decode_packets, pcm)
              (decode_packets-Cuts copies track_id ps buf r acc out h)
        | inl t ↦ elim (Bool-cases (copies held samples)) [
          | inr k ↦ rw (t, Decode.decode_packets, pcm, k) (λ q. cc)
          | inl k ↦
              rw (t, Decode.decode_packets, pcm, k)
                (unless_stopped-Cuts made.0 (pcm track_id ps made.1) acc out
                  (Decode.decode_packets n (always n) copies track_id ps (some held) made.1) h
                  (decode_packets-Cuts copies track_id ps (some held) made.1 (emptied n fed)
                    (out ++ fed.ready) (feed-IsBetween n made.0 acc out h)))
        ]
      ]

  start-IsBetween : IsBetween n (Accumulator.new n) []
  unfolding Accumulator.new place_end
  start-IsBetween = record {
    empty = refl;
    follows = record { placed = tt; reached = refl };
    bounded = record { waiting = omega arith; staged = tt };
    long = tt;
    placed = tt;
  }

  -- Where every window is taken and the call succeeds, the windows cut the samples of the track that
  -- was found: they stand one after the other from the start of the media, each but the last one 25.05
  -- to 34.95 seconds long, and hold all the samples but less than a quarter of a second at the end.
  pub decode_windows-IsCut :
      (c : Decode.Container n) (t : Decode.Track)
      → Decode.select_track c.tracks ≡ some t
      → (Decode.decode_windows n (always n) (ok c)).0 ≡ ok tt
      → IsCut (pcm t.id c.packets (Resample.fresh n)) (Decode.decode_windows n (always n) (ok c)).1
  unfolding Decode.decode_windows
  decode_windows-IsCut c t e =
      subst
        (λ o.
          (Decode.decode_track n (always n) c o).0 ≡ ok tt
          → IsCut (pcm t.id c.packets (Resample.fresh n)) (Decode.decode_track n (always n) c o).1)
        (sym e)
        (unfold Decode.decode_track joined Accumulator.new in
          decode_packets-Cuts c.copies t.id c.packets none (Resample.fresh n) (Accumulator.new n) []
            start-IsBetween)
