-- ===== src/Cues/Normalize/Sort.antt =====
-- The sort of `normalize` in backend/src/cues.rs.
use mathlib.Core.List.{Perm}
use mathlib.Core.List.Perm
use ryu_subtitles.Prelude.{
  ◌≤◌, ◌≡◌, refl, true, false, inl, inr, List, [], ◌∷◌, arith, Bool-cases, Chain,
}
use ryu_subtitles.Cues.Model.{Cue}
use ryu_subtitles.Cues.Normalize.{key_le, insert_cue, sort_by_key}

abbrev pub InOrder : Cue → Cue → Type 0
InOrder c d = key_le c d ≡ true

pub key_le_total : (c d : Cue) → key_le c d ≡ false → InOrder d c
unfolding key_le
key_le_total c d h = ground arith

pub InOrder-start_ms : (c d : Cue) → InOrder c d → c.start_ms ≤ d.start_ms
unfolding key_le
InOrder-start_ms c d h = ground arith

insert_cue-perm : (c : Cue) (cs : List Cue) → Perm (insert_cue c cs) (c ∷ cs)
unfolding insert_cue
insert_cue-perm c [] = Perm.refl (c ∷ [])
insert_cue-perm c (d ∷ ds) = elim (Bool-cases (key_le c d)) [
  | inl h ↦ rw h (Perm.refl (c ∷ d ∷ ds))
  | inr h ↦ rw h (Perm.trans (Perm.cons d (insert_cue-perm c ds)) (Perm.swap c d ds))
]

-- Sorting rearranges the cues and keeps each of them.
pub sort_by_key-perm : (cs : List Cue) → Perm (sort_by_key cs) cs
unfolding sort_by_key
sort_by_key-perm [] = Perm.refl []
sort_by_key-perm (c ∷ cs) =
    Perm.trans (insert_cue-perm c (sort_by_key cs)) (Perm.cons c (sort_by_key-perm cs))

insert_cue-Chain : (c : Cue) (cs : List Cue) → Chain InOrder cs → Chain InOrder (insert_cue c cs)
unfolding insert_cue
insert_cue-Chain c [] h = tt
insert_cue-Chain c (d ∷ []) h = elim (Bool-cases (key_le c d)) [
  | inl e ↦ rw e (e, tt)
  | inr e ↦ rw e (key_le_total c d e, tt)
]
insert_cue-Chain c (d ∷ e ∷ ds) (p, h) =
    ground (arith, insert_cue-Chain c (e ∷ ds) h, key_le_total c d, key_le_total c e)

-- Sorted cues are in the order of their keys.
pub sort_by_key-Chain : (cs : List Cue) → Chain InOrder (sort_by_key cs)
unfolding sort_by_key
sort_by_key-Chain [] = tt
sort_by_key-Chain (c ∷ cs) = insert_cue-Chain c (sort_by_key cs) (sort_by_key-Chain cs)

-- Cues in order are left as they are.
pub sort_by_key_lem : (cs : List Cue) → Chain InOrder cs → sort_by_key cs ≡ cs
unfolding sort_by_key insert_cue
sort_by_key_lem [] h = refl
sort_by_key_lem (c ∷ []) h = refl
sort_by_key_lem (c ∷ d ∷ cs) (p, h) = rw (sort_by_key_lem (d ∷ cs) h, p)
