-- ===== src/Media/Decode/Between.antt =====
-- The state of `decode_windows` of backend/src/media.rs between two packets.
use ryu_subtitles.Prelude.{
  ◌≡◌, refl, sym, ap, ◌∙◌, Bool, true, List, [], ◌∷◌, ◌++◌, append_assoc, append-nil, length, All,
  All-append,
}
use ryu_subtitles.Media.Model.{Numbers, PendingWindow, WindowAccumulator}
use ryu_subtitles.Media.Accumulator
use ryu_subtitles.Media.Accumulator.Parts.{
  joined, joined-append, held, held-push_all, place_end, place_end-append, Placed, Placed-append,
  Follows, push_all-Follows,
}
use ryu_subtitles.Media.Accumulator.Bounds.{FitsWindow, Bounded, push_all-Bounded}
use ryu_subtitles.Media.Decode

module _ (n : Numbers) where
  -- What holds between two packets.
  pub record IsBetween (acc : WindowAccumulator n) (out : List (PendingWindow n)) : Type 0 where
    pub empty : acc.ready ≡ []
    pub follows : Follows n (place_end n 0 out) acc
    pub bounded : Bounded n acc
    pub long : All (FitsWindow n) out
    pub placed : Placed n 0 out

  abbrev pub always : List (PendingWindow n) → Bool
  always out = true

  abbrev pub emptied : WindowAccumulator n → WindowAccumulator n
  emptied acc = record acc { ready = [] }

  pub drain-always :
      (ws : List (PendingWindow n)) (acc : WindowAccumulator n) (out : List (PendingWindow n))
      → Decode.drain n always (length ws) (record acc { ready = ws }) out
        ≡ (true, emptied acc, out ++ ws)
  unfolding Decode.drain Accumulator.take_ready
  drain-always [] acc out = ap (λ o. (true, emptied acc, o)) (sym (append-nil out))
  drain-always (w ∷ ws) acc out =
      drain-always ws acc (out ++ w ∷ [])
      ∙ ap (λ o. (true, emptied acc, o)) (append_assoc out (w ∷ []) ws)

  pub feed-IsBetween :
      (made : List n.I16) (acc : WindowAccumulator n) (out : List (PendingWindow n))
      → IsBetween acc out
      → IsBetween
          (emptied (Accumulator.push_all n made acc))
          (out ++ (Accumulator.push_all n made acc).ready)
  feed-IsBetween made acc out h =
      let fed = Accumulator.push_all n made acc in
      let follows = push_all-Follows n (place_end n 0 out) made acc h.follows in
      let bounded = push_all-Bounded n made acc h.bounded in
      record {
        empty = refl;
        follows = record {
          placed = tt;
          reached = unfold place_end in place_end-append n 0 out fed.ready ∙ follows.reached;
        };
        bounded = record { waiting = bounded.waiting; staged = tt };
        long = All-append (FitsWindow n) out fed.ready h.long bounded.staged;
        placed = Placed-append n 0 out fed.ready h.placed follows.placed;
      }

  -- The samples after feeding are those before, then the ones fed.
  pub feed-samples :
      (made rest : List n.I16) (acc : WindowAccumulator n) (out : List (PendingWindow n))
      → acc.ready ≡ []
      → joined n (out ++ (Accumulator.push_all n made acc).ready)
          ++ ((Accumulator.push_all n made acc).samples ++ rest)
        ≡ joined n out ++ (acc.samples ++ (made ++ rest))
  unfolding joined
  feed-samples made rest acc out e =
      let fed = Accumulator.push_all n made acc in
      ap (λ t. t ++ (fed.samples ++ rest)) (joined-append n out fed.ready)
      ∙ append_assoc (joined n out) (joined n fed.ready) (fed.samples ++ rest)
      ∙ ap (λ t. joined n out ++ t)
          (sym (append_assoc (joined n fed.ready) fed.samples rest)
            ∙ ap (λ t. t ++ rest) (held-push_all n made acc)
            ∙ append_assoc (held n acc) made rest
            ∙ ap (λ ws. (joined n ws ++ acc.samples) ++ (made ++ rest)) e)
