-- ===== src/Prelude/Int.antt =====
-- Signed integers over the native numbers, as far as the source's casts need them.
use Prim.Native.Nat.{ℕ, ◌-◌, ◌^◌}
use skyport.Prelude.Tests.{ltb, if◌then◌else◌}

-- `negsuc n` is -(n + 1).
pub data ℤ : Type 0 where
  pos : ℕ → ℤ
  negsuc : ℕ → ℤ

-- `n as i64` of a `u64`
abbrev pub as_i64 : ℕ → ℤ
as_i64 n = if ltb n (2 ^ 63) then pos n else negsuc (2 ^ 64 - 1 - n)
