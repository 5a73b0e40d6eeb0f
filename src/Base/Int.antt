-- ===== src/Base/Int.antt =====
-- Python's `int` on values that may be negative: `negsuc n` is -(n + 1).
use Prim.Native.Nat.{ℕ, ◌+◌, ◌-◌}
use opendss_designer_cloud.Base.Tests.{leb, ltb, if◌then◌else◌}

pub data ℤ : Type 0 where
  pos : ℕ → ℤ
  negsuc : ℕ → ℤ

abbrev pub negate : ℕ → ℤ
negate n = if leb n 0 then pos 0 else negsuc (n - 1)

-- `max(n, 0)`
abbrev pub pos_part : ℤ → ℕ
pos_part (pos n) = n
pos_part (negsuc n) = 0

-- `n + k`
unfoldable pub add : ℤ → ℕ → ℤ
add (pos n) k = pos (n + k)
add (negsuc n) k = if ltb n k then pos (k - n - 1) else negsuc (n - k)
