-- ===== src/Prelude/Words.antt =====
-- Saturating arithmetic on u64, as in `u64::saturating_add` and `u64::saturating_sub`.
use Prim.Native.Nat.{ℕ, ◌+◌, ◌-◌, ◌^◌, min}

abbrev pub u64_max : ℕ
u64_max = 2 ^ 64 - 1

abbrev pub saturating_add : ℕ → ℕ → ℕ
saturating_add a b = min (a + b) u64_max

-- Subtraction on ℕ stops at 0, as the saturating one does.
abbrev pub saturating_sub : ℕ → ℕ → ℕ
saturating_sub a b = a - b
