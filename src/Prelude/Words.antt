-- ===== src/Prelude/Words.antt =====
-- Fixed-width unsigned integers as native numbers. The release profile has no overflow checks, so
-- `+=` wraps; `saturating_sub` is the truncated `-` of the native numbers.
use Prim.Native.Nat.{ℕ, ◌+◌, ◌-◌, ◌%◌}

abbrev pub u32 : ℕ → ℕ
u32 n = n % 4294967296

abbrev pub u64 : ℕ → ℕ
u64 n = n % 18446744073709551616

-- `a.wrapping_sub(b)` on u64, for words `a` and `b`.
abbrev pub sub_u64 : ℕ → ℕ → ℕ
sub_u64 a b = (a + (18446744073709551616 - b)) % 18446744073709551616
