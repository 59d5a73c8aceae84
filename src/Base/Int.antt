-- ===== src/Base/Int.antt =====
-- Signed integers over the native numbers: what the source adds to a score.
use Prim.Native.Nat.{ℕ, suc, ◌+◌, ◌-◌}
use the_room_backend.Base.Tests.{leb, if◌then◌else◌}

-- `negsuc n` is -(n + 1).
pub data ℤ : Type 0 where
  pos : ℕ → ℤ
  negsuc : ℕ → ℤ

-- a - b, as an integer.
abbrev pub sub_ℕ : ℕ → ℕ → ℤ
sub_ℕ a b = if leb b a then pos (a - b) else negsuc (b - a - 1)

-- max(0, a + z)
abbrev pub add_clipped : ℕ → ℤ → ℕ
add_clipped a (pos n) = a + n
add_clipped a (negsuc n) = a - suc n

-- max(0, a - z)
abbrev pub sub_clipped : ℕ → ℤ → ℕ
sub_clipped a (pos n) = a - n
sub_clipped a (negsuc n) = a + suc n
