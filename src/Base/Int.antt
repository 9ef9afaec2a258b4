-- ===== src/Base/Int.antt =====
-- The integers: `negsuc n` is -(n + 1). The C type `int` is the integers from -2^31 to 2^31 - 1.
use Prim.Native.Nat.{ℕ, ◌-◌}
use ko.Base.Tests.{leb, if◌then◌else◌}

pub data ℤ : Type 0 where
  pos : ℕ → ℤ
  negsuc : ℕ → ℤ

-- `a - b` for two unsigned values that are promoted to `int`.
abbrev pub sub_ℕ : ℕ → ℕ → ℤ
sub_ℕ a b = if leb b a then pos (a - b) else negsuc (b - a - 1)

-- `- n`
abbrev pub neg_ℕ : ℕ → ℤ
neg_ℕ n = sub_ℕ 0 n
