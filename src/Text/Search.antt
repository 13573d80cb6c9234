-- ===== src/Text/Search.antt =====
-- `rfind` and `split_at` together.
use ryu_subtitles.Prelude.{
  ℕ, zero, suc, ◌+◌, ◌-◌, ◌≤◌, ◌<◌, ◌≡◌, refl, ap, subst, ◌∙◌, ◌⊎◌, true, false, none, some, inl,
  inr, [], ◌∷◌, ◌++◌, arith, Bool-cases, Option-cases, le→ltb_false,
}
use ryu_subtitles.Text.{Text, utf8_len, byte_len, starts_with, rfind, push_head, split_at}

pub utf8_len_pos : (c : ℕ) → 0 < utf8_len c
unfolding utf8_len
utf8_len_pos c = ground arith

pub byte_len-append : (s t : Text) → byte_len (s ++ t) ≡ byte_len s + byte_len t
unfolding byte_len
byte_len-append [] t = omega arith
byte_len-append (c ∷ s) t = omega (arith, byte_len-append s t)

split_at_step :
    (c : ℕ) (s : Text) (m : ℕ)
    → utf8_len c ≤ m
    → split_at (c ∷ s) m ≡ push_head c (split_at s (m - utf8_len c))
unfolding split_at
split_at_step c s zero h = absurd (omega (arith, utf8_len_pos c))
split_at_step c s (suc m) h = rw (le→ltb_false _ _ h)

split_at-cons :
    (c : ℕ) (s : Text) (n : ℕ) → split_at (c ∷ s) (utf8_len c + n) ≡ push_head c (split_at s n)
split_at-cons c s n =
    let e : utf8_len c + n - utf8_len c ≡ n = omega arith in
    split_at_step c s (utf8_len c + n) (omega arith) ∙ ap (λ m. push_head c (split_at s m)) e

split_at-zero : (s : Text) → split_at s 0 ≡ some ([], s)
unfolding split_at
split_at-zero [] = refl
split_at-zero (c ∷ s) = refl

-- Splitting a text at the byte length of a prefix gives that prefix and the rest.
pub split_at-append : (p q : Text) → split_at (p ++ q) (byte_len p) ≡ some (p, q)
unfolding byte_len
split_at-append [] q = split_at-zero q
split_at-append (c ∷ p) q = rw (split_at-cons, split_at-append p q) (unfold push_head in refl)

starts_with_sound : (s p : Text) → starts_with s p ≡ true → (rest : Text) × (s ≡ p ++ rest)
unfolding starts_with
starts_with_sound s [] h = (s, refl)
starts_with_sound [] (d ∷ p) h = cc
starts_with_sound (c ∷ s) (d ∷ p) h =
    let (rest, e) = starts_with_sound s p (ground arith) in (rest, ground (arith, e))

-- What `rfind` says of the index `i` that it returns for `p` in `s`.
abbrev pub Occurs : Text → Text → ℕ → Type 0
Occurs s p i =
    (before : Text) × (after : Text) × (s ≡ before ++ (p ++ after)) × (byte_len before ≡ i)

Occurs-here : (s p : Text) → starts_with s p ≡ true → Occurs s p 0
Occurs-here s p h =
    let (rest, e) = starts_with_sound s p h in ([], rest, e, (unfold byte_len in refl))

Occurs-later : (c : ℕ) (s p : Text) (i : ℕ) → Occurs s p i → Occurs (c ∷ s) p (utf8_len c + i)
Occurs-later c s p i (before, after, e, len) =
    (c ∷ before, after, ap (λ t. c ∷ t) e, (unfold byte_len in ap (λ k. utf8_len c + k) len))

-- The index that `rfind` returns is the byte length of what stands before a match.
pub rfind_sound : (s p : Text) (i : ℕ) → rfind s p ≡ some i → Occurs s p i
unfolding rfind
rfind_sound [] p i h = elim (Bool-cases (starts_with [] p)) [
  | inl e ↦ subst (Occurs [] p) (ground arith) (Occurs-here [] p e)
  | inr e ↦ absurd (ground arith)
]
rfind_sound (c ∷ s) p i h = elim (Option-cases (rfind s p)) [
  | inl e ↦ here (Bool-cases (starts_with (c ∷ s) p)) e
  | inr (j, e) ↦
      subst (Occurs (c ∷ s) p) (ground arith) (Occurs-later c s p j (rfind_sound s p j e))
]
  where
    here :
        (starts_with (c ∷ s) p ≡ true) ⊎ (starts_with (c ∷ s) p ≡ false)
        → rfind s p ≡ none
        → Occurs (c ∷ s) p i
    here (inl b) e = subst (Occurs (c ∷ s) p) (ground (arith, h)) (Occurs-here (c ∷ s) p b)
    here (inr b) e = absurd (ground (arith, h))
