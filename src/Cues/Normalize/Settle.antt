-- ===== src/Cues/Normalize/Settle.antt =====
-- The last loop of `normalize` in backend/src/cues.rs: floors and gaps.
use ryu_subtitles.Prelude.{
  ℕ, ◌+◌, ◌≤◌, ◌<◌, ◌^◌, ◌≡◌, refl, ap, ◌⊎◌, List, [], ◌∷◌, map, arith, All, Chain,
}
use ryu_subtitles.Cues.Model.{Cue, cue_gap_ms}
use ryu_subtitles.Cues.Normalize.{floor_end, pull_end, settle}

-- The times of a cue leave room for the floor and the gap in 64 bits.
pub record HasRoom (c : Cue) : Type 0 where
  pub start : c.start_ms + 1000 < 2 ^ 64
  pub end : c.end_ms + 1000 < 2 ^ 64

abbrev pub HasSpan : Cue → Type 0
HasSpan c = c.start_ms < c.end_ms

-- The first cue has left the gap before the second appears, or is on screen for 1 ms.
abbrev pub HasGap : Cue → Cue → Type 0
HasGap c d = (c.end_ms + cue_gap_ms ≤ d.start_ms) ⊎ (c.end_ms ≡ c.start_ms + 1)

-- What a cue keeps: all but its end.
abbrev pub kept : Cue → Cue
kept c = record c { end_ms = 0 }

kept-floor_end : (c : Cue) → kept (floor_end c) ≡ kept c
unfolding floor_end
kept-floor_end c = ground arith

kept-pull_end : (c : Cue) (n : ℕ) → kept (pull_end c n) ≡ kept c
unfolding pull_end
kept-pull_end c n = ground arith

-- The loop changes nothing but ends.
pub settle-kept : (cs : List Cue) → map kept (settle cs) ≡ map kept cs
unfolding settle
settle-kept [] = refl
settle-kept (c ∷ []) = ap (λ d. d ∷ []) (kept-floor_end c)
settle-kept (c ∷ d ∷ cs) =
    ground (arith, settle-kept (d ∷ cs), kept-pull_end (floor_end c) d.start_ms, kept-floor_end c)

floor_end-HasSpan : (c : Cue) → HasRoom c → HasSpan (floor_end c)
unfolding floor_end
floor_end-HasSpan c h = ground arith

pull_end-HasSpan : (c : Cue) (n : ℕ) → HasRoom c → HasSpan (pull_end (floor_end c) n)
unfolding floor_end pull_end
pull_end-HasSpan c n h = ground arith

-- With room for the sums, no cue ends before it starts, or at its start.
pub settle-HasSpan : (cs : List Cue) → All HasRoom cs → All HasSpan (settle cs)
unfolding settle
settle-HasSpan [] h = tt
settle-HasSpan (c ∷ []) (hc, h) = (floor_end-HasSpan c hc, tt)
settle-HasSpan (c ∷ d ∷ cs) (hc, h) = (pull_end-HasSpan c d.start_ms hc, settle-HasSpan (d ∷ cs) h)

pull_end-HasGap :
    (c d : Cue) → HasRoom c → c.start_ms ≤ d.start_ms → HasGap (pull_end (floor_end c) d.start_ms) d
unfolding floor_end pull_end
pull_end-HasGap c d h le = ground arith

pub start-pull_end : (c : Cue) (n : ℕ) → (pull_end (floor_end c) n).start_ms ≡ c.start_ms
unfolding floor_end pull_end
start-pull_end c n = ground arith

pub start-floor_end : (c : Cue) → (floor_end c).start_ms ≡ c.start_ms
unfolding floor_end
start-floor_end c = ground arith

abbrev pub StartsBefore : Cue → Cue → Type 0
StartsBefore c d = c.start_ms ≤ d.start_ms

-- Cues that start in order are left with a gap, or on screen for 1 ms.
pub settle-HasGap :
    (cs : List Cue) → All HasRoom cs → Chain StartsBefore cs → Chain HasGap (settle cs)
unfolding settle
settle-HasGap [] h o = tt
settle-HasGap (c ∷ []) h o = tt
settle-HasGap (c ∷ d ∷ []) (hc, h) (p, o) = (rw (start-floor_end d) (pull_end-HasGap c d hc p), tt)
settle-HasGap (c ∷ d ∷ e ∷ cs) (hc, h) (p, o) =
    (rw (start-pull_end d e.start_ms) (pull_end-HasGap c d hc p), settle-HasGap (d ∷ e ∷ cs) h o)

pub settle-StartsBefore : (cs : List Cue) → Chain StartsBefore cs → Chain StartsBefore (settle cs)
unfolding settle
settle-StartsBefore [] o = tt
settle-StartsBefore (c ∷ []) o = tt
settle-StartsBefore (c ∷ d ∷ []) (p, o) =
    (rw (start-floor_end d, start-pull_end c d.start_ms) p, tt)
settle-StartsBefore (c ∷ d ∷ e ∷ cs) (p, o) = (
  rw (start-pull_end d e.start_ms, start-pull_end c d.start_ms) p,
  settle-StartsBefore (d ∷ e ∷ cs) o,
)
