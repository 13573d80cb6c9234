-- ===== src/Cues/Normalize.antt =====
-- `normalize` of backend/src/cues.rs.
pub mod Sort
pub mod Settle
pub mod Stable
use ryu_subtitles.Prelude.{
  ℕ, max, Bool, not, ◌&&◌, ◌||◌, List, [], ◌∷◌, ltb, leb, ◌==◌, retain, add_u64, saturating_sub,
  if◌then◌else◌,
}
use ryu_subtitles.Text.{is_empty, trim}
use ryu_subtitles.Cues.Model.{Cue, min_cue_ms, cue_gap_ms}

-- The order of the keys `(start_ms, end_ms)`.
unfoldable pub key_le : Cue → Cue → Bool
key_le c d = ltb c.start_ms d.start_ms || (c.start_ms == d.start_ms && leb c.end_ms d.end_ms)

unfoldable pub insert_cue : Cue → List Cue → List Cue
unfolding key_le
insert_cue c [] = c ∷ []
insert_cue c (d ∷ ds) = if key_le c d then c ∷ d ∷ ds else d ∷ insert_cue c ds

-- `sort_by_key` is stable: a cue comes before the later ones of an equal key.
unfoldable pub sort_by_key : List Cue → List Cue
unfolding insert_cue
sort_by_key [] = []
sort_by_key (c ∷ cs) = insert_cue c (sort_by_key cs)

-- The floor on the time on screen.
unfoldable pub floor_end : Cue → Cue
floor_end c =
    let floor = add_u64 c.start_ms min_cue_ms in
    if ltb c.end_ms floor then record c { end_ms = floor } else c

-- The gap before the next cue: an end is only pulled earlier.
unfoldable pub pull_end : Cue → ℕ → Cue
pull_end c next_start =
    if ltb next_start (add_u64 c.end_ms cue_gap_ms)
    then record c { end_ms = max (saturating_sub next_start cue_gap_ms) (add_u64 c.start_ms 1) }
    else c

-- The `for` loop: a round reads the start of the next cue, which no round writes.
unfoldable pub settle : List Cue → List Cue
unfolding floor_end pull_end
settle [] = []
settle (c ∷ []) = floor_end c ∷ []
settle (c ∷ d ∷ cs) = pull_end (floor_end c) d.start_ms ∷ settle (d ∷ cs)

unfoldable pub is_spoken : Cue → Bool
is_spoken c = not (is_empty (trim c.text))

unfoldable pub normalize : List Cue → List Cue
unfolding settle sort_by_key is_spoken retain
normalize cues = settle (sort_by_key (retain is_spoken cues))
