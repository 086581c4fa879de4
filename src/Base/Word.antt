-- ===== src/Base/Word.antt =====
-- 32-bit words as native numbers, and the C operators on them. `x & (2^n - 1)` is `x % 2 ^ n`,
-- `x >> k` is `x / 2 ^ k`.
use Prim.Native.Nat.{ℕ, ◌+◌, ◌-◌, ◌*◌, ◌/◌, ◌%◌, ◌^◌}
use mathlib.Core.Bool.{Bool}
use ndse_core.Base.Tests.{◌==◌, ltb, if◌then◌else◌}

-- What is kept of a value stored into a 32-bit `unsigned long`.
abbrev pub u32 : ℕ → ℕ
u32 x = x % 2 ^ 32

-- `-x` for `x ≤ 2 ^ 32`.
abbrev pub neg32 : ℕ → ℕ
neg32 x = (2 ^ 32 - x) % 2 ^ 32

-- `a - b` for `b ≤ 2 ^ 32`; `-` on ℕ stops at 0, so the modulus is added first.
abbrev pub sub32 : ℕ → ℕ → ℕ
sub32 a b = (a + 2 ^ 32 - b) % 2 ^ 32

-- `x << k`
abbrev pub shl32 : ℕ → ℕ → ℕ
shl32 x k = x * 2 ^ k % 2 ^ 32

-- `x >> k` on a `signed long`: the sign bit is copied in from the left.
abbrev pub asr32 : ℕ → ℕ → ℕ
asr32 x k = if ltb x (2 ^ 31) then x / 2 ^ k else x / 2 ^ k + (2 ^ 32 - 2 ^ (32 - k))

-- `_rotr(x, k)` for `k < 32`: the two halves that the source joins by `|` share no bit, so the
-- union is a sum.
abbrev pub rotr32 : ℕ → ℕ → ℕ
rotr32 x k = x / 2 ^ k + x % 2 ^ k * 2 ^ (32 - k)

-- `x & (1 << k)` as a condition.
abbrev pub bit : ℕ → ℕ → Bool
bit x k = x / 2 ^ k % 2 == 1

-- `(x >> k) & (2^n - 1)`
abbrev pub field : ℕ → ℕ → ℕ → ℕ
field x k n = x / 2 ^ k % 2 ^ n
