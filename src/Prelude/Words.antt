-- ===== src/Prelude/Words.antt =====
-- `u64` arithmetic of a release build: sums and products wrap at 2^64, `saturating_sub` stops at 0.
use Prim.Native.Nat.{ℕ, ◌+◌, ◌-◌, ◌*◌, ◌%◌, ◌^◌}

abbrev pub u64_mod : ℕ
u64_mod = 2 ^ 64

abbrev pub add_u64 : ℕ → ℕ → ℕ
add_u64 a b = (a + b) % 2 ^ 64

abbrev pub mul_u64 : ℕ → ℕ → ℕ
mul_u64 a b = (a * b) % 2 ^ 64

abbrev pub saturating_sub : ℕ → ℕ → ℕ
saturating_sub a b = a - b
