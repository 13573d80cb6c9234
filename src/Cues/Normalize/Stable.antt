-- ===== src/Cues/Normalize/Stable.antt =====
-- The result of `normalize` in backend/src/cues.rs as a whole.
use mathlib.Core.List.{Perm}
use mathlib.Core.List.Perm
use ryu_subtitles.Prelude.{
  ℕ, ◌≤◌, ◌≡◌, refl, ap, ap₂, ◌∙◌, true, List, [], ◌∷◌, map, arith, All, Chain, retain, retain-All,
  All-retain, retain_all, Bool-cases, inl, inr,
}
use ryu_subtitles.Cues.Model.{Cue}
use ryu_subtitles.Cues.Normalize.{
  key_le, insert_cue, sort_by_key, floor_end, pull_end, settle, is_spoken, normalize,
}
use ryu_subtitles.Cues.Normalize.Sort.{
  InOrder, InOrder-start_ms, sort_by_key-perm, sort_by_key-Chain, sort_by_key_lem,
}
use ryu_subtitles.Cues.Normalize.Settle.{
  HasRoom, HasSpan, HasGap, StartsBefore, kept, settle-kept, settle-HasSpan, settle-HasGap,
  settle-StartsBefore, start-floor_end, start-pull_end,
}

module _ (P : Cue → Type 0) where
  All-insert_cue : (c : Cue) (cs : List Cue) → P c → All P cs → All P (insert_cue c cs)
  unfolding insert_cue
  All-insert_cue c [] hc h = (hc, tt)
  All-insert_cue c (d ∷ ds) hc (hd, h) = elim (Bool-cases (key_le c d)) [
    | inl e ↦ rw e (hc, (hd, h))
    | inr e ↦ rw e (hd, All-insert_cue c ds hc h)
  ]

  pub All-sort_by_key : (cs : List Cue) → All P cs → All P (sort_by_key cs)
  unfolding sort_by_key
  All-sort_by_key [] h = tt
  All-sort_by_key (c ∷ cs) (hc, h) = All-insert_cue c (sort_by_key cs) hc (All-sort_by_key cs h)

Chain-StartsBefore : (cs : List Cue) → Chain InOrder cs → Chain StartsBefore cs
Chain-StartsBefore [] h = tt
Chain-StartsBefore (c ∷ []) h = tt
Chain-StartsBefore (c ∷ d ∷ cs) (p, h) = (InOrder-start_ms c d p, Chain-StartsBefore (d ∷ cs) h)

spoken-floor_end : (c : Cue) → is_spoken (floor_end c) ≡ is_spoken c
unfolding floor_end is_spoken
spoken-floor_end c = ground arith

spoken-pull_end : (c : Cue) (n : ℕ) → is_spoken (pull_end c n) ≡ is_spoken c
unfolding pull_end is_spoken
spoken-pull_end c n = ground arith

abbrev pub IsSpoken : Cue → Type 0
IsSpoken c = is_spoken c ≡ true

settle-IsSpoken : (cs : List Cue) → All IsSpoken cs → All IsSpoken (settle cs)
unfolding settle
settle-IsSpoken [] h = tt
settle-IsSpoken (c ∷ []) (hc, h) = (spoken-floor_end c ∙ hc, tt)
settle-IsSpoken (c ∷ d ∷ cs) (hc, h) =
    (spoken-pull_end (floor_end c) d.start_ms ∙ spoken-floor_end c ∙ hc, settle-IsSpoken (d ∷ cs) h)

-- After normalizing, every cue says something.
pub normalize-IsSpoken : (cues : List Cue) → All IsSpoken (normalize cues)
unfolding normalize
normalize-IsSpoken cues =
    settle-IsSpoken _ (All-sort_by_key IsSpoken (retain is_spoken cues) (retain-All is_spoken cues))

-- After normalizing, the cues start in order; with room for the sums in 64 bits, every cue ends
-- after it starts, and leaves a gap of 40 ms before the next one or is on screen for 1 ms.
pub normalize_sound :
    (cues : List Cue)
    → All HasRoom cues
    → Chain StartsBefore (normalize cues)
      × All HasSpan (normalize cues)
      × Chain HasGap (normalize cues)
unfolding normalize
normalize_sound cues h =
    let sorted = sort_by_key (retain is_spoken cues) in
    let room =
      All-sort_by_key HasRoom (retain is_spoken cues) (All-retain HasRoom is_spoken cues h) in
    let order = Chain-StartsBefore sorted (sort_by_key-Chain (retain is_spoken cues)) in
    (settle-StartsBefore sorted order, settle-HasSpan sorted room, settle-HasGap sorted room order)

floor_end_again : (c : Cue) → floor_end (floor_end c) ≡ floor_end c
unfolding floor_end
floor_end_again c = ground arith

pull_end_again :
    (c : Cue) (n : ℕ)
    → HasRoom c
    → c.start_ms ≤ n
    → pull_end (floor_end (pull_end (floor_end c) n)) n ≡ pull_end (floor_end c) n
unfolding floor_end pull_end
pull_end_again c n h o = ground arith

-- The same where the next start is known by an equation.
pull_end_same :
    (c : Cue) (n m : ℕ)
    → HasRoom c
    → c.start_ms ≤ n
    → m ≡ n
    → pull_end (floor_end (pull_end (floor_end c) n)) m ≡ pull_end (floor_end c) n
pull_end_same c n m h o e =
    ap (pull_end (floor_end (pull_end (floor_end c) n))) e ∙ pull_end_again c n h o

settle_again :
    (cs : List Cue) → All HasRoom cs → Chain StartsBefore cs → settle (settle cs) ≡ settle cs
unfolding settle
settle_again [] h o = refl
settle_again (c ∷ []) h o = ap (λ d. d ∷ []) (floor_end_again c)
settle_again (c ∷ d ∷ []) (hc, h) (p, o) =
    ap₂ (λ x y. x ∷ y ∷ []) (pull_end_same c d.start_ms _ hc p (start-floor_end d))
      (floor_end_again d)
settle_again (c ∷ d ∷ e ∷ cs) (hc, h) (p, o) =
    ap₂ (λ x xs. x ∷ xs) (pull_end_same c d.start_ms _ hc p (start-pull_end d e.start_ms))
      (settle_again (d ∷ e ∷ cs) h o)

floor_end-InOrder :
    (c d : Cue)
    → HasRoom c
    → HasRoom d
    → InOrder c d
    → InOrder (pull_end (floor_end c) d.start_ms) (floor_end d)
unfolding floor_end pull_end key_le
floor_end-InOrder c d hc hd h = ground arith

pull_end-InOrder :
    (c d : Cue) (n : ℕ)
    → HasRoom c
    → HasRoom d
    → InOrder c d
    → d.start_ms ≤ n
    → InOrder (pull_end (floor_end c) d.start_ms) (pull_end (floor_end d) n)
unfolding floor_end pull_end key_le
pull_end-InOrder c d n hc hd h o = ground arith

settle-InOrder : (cs : List Cue) → All HasRoom cs → Chain InOrder cs → Chain InOrder (settle cs)
unfolding settle
settle-InOrder [] h o = tt
settle-InOrder (c ∷ []) h o = tt
settle-InOrder (c ∷ d ∷ []) (hc, (hd, h)) (p, o) = (floor_end-InOrder c d hc hd p, tt)
settle-InOrder (c ∷ d ∷ e ∷ cs) (hc, (hd, h)) (p, o) = (
  pull_end-InOrder c d e.start_ms hc hd p (InOrder-start_ms d e o.0),
  settle-InOrder (d ∷ e ∷ cs) (hd, h) o,
)

-- With room for the sums in 64 bits, normalizing twice is normalizing once.
pub normalize_again :
    (cues : List Cue) → All HasRoom cues → normalize (normalize cues) ≡ normalize cues
unfolding normalize
normalize_again cues h =
    let sorted = sort_by_key (retain is_spoken cues) in
    let room =
      All-sort_by_key HasRoom (retain is_spoken cues) (All-retain HasRoom is_spoken cues h) in
    let order = sort_by_key-Chain (retain is_spoken cues) in
    ap (λ cs. settle (sort_by_key cs))
      (retain_all is_spoken (normalize cues) (normalize-IsSpoken cues))
    ∙ ap settle (sort_by_key_lem (settle sorted) (settle-InOrder sorted room order))
    ∙ settle_again sorted room (Chain-StartsBefore sorted order)

-- Normalizing drops only the cues that say nothing, and changes nothing of the others but their
-- ends and their order.
pub normalize-perm :
    (cues : List Cue) → Perm (map kept (normalize cues)) (map kept (retain is_spoken cues))
unfolding normalize
normalize-perm cues =
    let spoken = retain is_spoken cues in rw settle-kept (Perm.map kept (sort_by_key-perm spoken))
