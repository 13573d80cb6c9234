-- ===== src/Media/Resample/Fuel.antt =====
-- The loop of `Resampler::push` of backend/src/media.rs ends.
use ryu_subtitles.Prelude.{
  ◌⊎◌, inl, inr, Bool-cases, sym, ◌∙◌, ℕ, zero, suc, ◌+◌, ◌*◌, ◌≤◌, ◌<◌, ◌≡◌, refl, ap, List, [],
  ◌∷◌, length, arith, ltb, lt→ltb, if◌then◌else◌,
}
use ryu_subtitles.Media.Model.{Numbers, target_rate}
use ryu_subtitles.Media.Resample

-- How a position advances at a rate on a buffer of `limit` samples. `Near` tells the positions on the
-- buffer, which for `f64` are the finite ones from 0 to `limit`, and `ticks` counts 32000ths of a
-- sample. The sum of such a position and of a 16000th or more is rounded by less than a 32000th, as
-- long as `limit` is below 2 ^ 31, so the next position is a tick on; no law is asked of the others.
pub record Advances (n : Numbers) (rate limit : ℕ) : Type 1 where
  pub Near : n.F64 → Type 0
  pub ticks : n.F64 → ℕ
  pub stays : (x : n.F64) → Near x → n.ceil (n.advance x rate) ≤ limit → Near (n.advance x rate)
  pub forward :
      (x : n.F64) → Near x → n.ceil (n.advance x rate) ≤ limit → ticks x < ticks (n.advance x rate)
  pub rounded : (x : n.F64) → Near x → n.ceil x ≤ limit → ticks x ≤ limit * (2 * target_rate)

lt_or_le : (a b : ℕ) → (a < b) ⊎ (b ≤ a)
lt_or_le a b = elim (Bool-cases (ltb a b)) [
  | inl t ↦ inl (ground arith)
  | inr t ↦ inr (ground arith)
]

module _ (n : Numbers) (rate : ℕ) where
  break_here :
      (fuel : ℕ) (carry : List n.F32) (position : n.F64) (consumed : ℕ)
      → length carry < n.ceil (n.advance position rate)
      → Resample.resample n fuel carry rate position consumed
        ≡ record { samples = []; position = position; consumed = consumed }
  unfolding Resample.resample
  break_here zero carry position consumed h = refl
  break_here (suc fuel) carry position consumed h =
      rw (lt→ltb (length carry) (n.ceil (n.advance position rate)) h) refl

  module _ (carry : List n.F32) (law : Advances n rate (length carry)) where
    at_end :
        (position : n.F64)
        → law.Near position
        → length carry * (2 * target_rate) < law.ticks position
        → length carry < n.ceil (n.advance position rate)
    at_end position near h = elim (lt_or_le (length carry) (n.ceil (n.advance position rate))) [
      | inl q ↦ q
      | inr inside ↦
          let further = law.forward position near inside in
          let within = law.rounded _ (law.stays position near inside) inside in
          absurd (omega (arith, further, within, h))
    ]

    one_more :
        (fuel extra : ℕ) (position : n.F64) (consumed : ℕ)
        → (n.ceil (n.advance position rate) ≤ length carry
            → Resample.resample n
                (fuel + extra)
                carry
                rate
                (n.advance position rate)
                (n.floor position)
              ≡ Resample.resample n fuel carry rate (n.advance position rate) (n.floor position))
        → Resample.resample n (suc (fuel + extra)) carry rate position consumed
          ≡ Resample.resample n (suc fuel) carry rate position consumed
    one_more fuel extra position consumed same =
        elim (lt_or_le (length carry) (n.ceil (n.advance position rate))) [
          | inl q ↦
              break_here (suc (fuel + extra)) carry position consumed q
              ∙ sym (break_here (suc fuel) carry position consumed q)
          | inr inside ↦
              unfold Resample.resample in
              ap
                (λ (rest : Resample.Run n).
                  if ltb (length carry) (n.ceil (n.advance position rate))
                  then record { samples = []; position = position; consumed = consumed }
                  else record rest {
                    samples =
                        Resample.box_average n carry position (n.advance position rate)
                        ∷ rest.samples;
                  })
                (same inside)
        ]

    enough :
        (fuel extra : ℕ) (position : n.F64) (consumed : ℕ)
        → law.Near position
        → length carry * (2 * target_rate) < law.ticks position + fuel
        → Resample.resample n (fuel + extra) carry rate position consumed
          ≡ Resample.resample n fuel carry rate position consumed
    enough zero extra position consumed near h =
        let past = at_end position near (omega arith) in
        break_here (0 + extra) carry position consumed past
        ∙ sym (break_here 0 carry position consumed past)
    enough (suc fuel) extra position consumed near h =
        let one_used : suc fuel + extra ≡ suc (fuel + extra) = omega arith in
        rw one_used (
          one_more fuel extra position consumed (λ inside.
            let further = law.forward position near inside in
            enough fuel extra (n.advance position rate) (n.floor position)
              (law.stays position near inside) (omega (arith, further, h))))

    -- On a buffer on which positions advance, the loop ends within its fuel from every
    -- position on the buffer: with more fuel it makes the same samples and leaves the same
    -- position. Positions advance when the sum of a position on the buffer and the step is a
    -- 32000th of a sample further at least, as it is for `f64` on buffers of fewer than 2 ^
    -- 31 samples.
    pub resample-total :
        (extra : ℕ) (position : n.F64) (consumed : ℕ)
        → law.Near position
        → Resample.resample n (Resample.most_rounds n carry + extra) carry rate position consumed
          ≡ Resample.resample n (Resample.most_rounds n carry) carry rate position consumed
    resample-total extra position consumed near =
        enough (Resample.most_rounds n carry) extra position consumed near (omega arith)
