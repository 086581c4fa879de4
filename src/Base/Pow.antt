-- ===== src/Base/Pow.antt =====
-- Powers of two, and the range of a rotated word.
use Prim.Native.Nat.{ℕ, zero, suc, ◌+◌, ◌-◌, ◌*◌, ◌/◌, ◌%◌, ◌^◌, ◌<◌, ◌≤◌}
use mathlib.Core.Path.{◌≡◌, ◌∙◌, ap, sym}
use native.Mathlib.Nat.{pow-suc, zero-add, mod-lt}
use native.Mathlib.Omega.{arith}
use ndse_core.Base.Word.{rotr32}

pow_congr : {m n : ℕ} → m ≡ n → 2 ^ m ≡ 2 ^ n
pow_congr e = ap (λ k. 2 ^ k) e

pub pow_add : (m n : ℕ) → 2 ^ (m + n) ≡ 2 ^ m * 2 ^ n
pow_add zero n = rw zero-add (omega arith)
pow_add (suc m) n =
    pow_congr (omega arith)
    ∙ pow-suc 2 (m + n)
    ∙ ap (λ k. k * 2) (pow_add m n)
    ∙ regroup (2 ^ m) (2 ^ n)
    ∙ ap (λ k. k * 2 ^ n) (sym (pow-suc 2 m))
  where
    regroup : (a b : ℕ) → a * b * 2 ≡ a * 2 * b
    regroup a b = omega arith

pub pow_pos : (k : ℕ) → 0 < 2 ^ k
pow_pos zero = omega arith
pow_pos (suc k) = omega (arith, pow-suc 2 k, pow_pos k)

-- The quotient and the remainder by `p`, swapped, stay below `p * q`.
swapped-lt : (p q x y : ℕ) → 0 < q → x < q → y < p → x + y * q < p * q
swapped-lt p q x y hq hx hy = grind arith

pub div-lt_of_mul : (x p q : ℕ) → 0 < p → x < p * q → x / p < q
div-lt_of_mul x p q hp h = grind arith

pub le-div_of_mul : (x p q : ℕ) → 0 < p → p * q ≤ x → q ≤ x / p
le-div_of_mul x p q hp h = grind arith

-- A rotation of a word is a word.
pub rotr32-lt : (x k : ℕ) → x < 2 ^ 32 → k ≤ 32 → rotr32 x k < 2 ^ 32
rotr32-lt x k hx hk = rw product (
    swapped-lt (2 ^ k) (2 ^ (32 - k)) (x / 2 ^ k) (x % 2 ^ k) (pow_pos (32 - k))
      (div-lt_of_mul x (2 ^ k) (2 ^ (32 - k)) (pow_pos k) (rw (← product) hx))
      (mod-lt x (pow_pos k)))
  where
    total : 32 ≡ k + (32 - k)
    total = omega arith

    product : 2 ^ 32 ≡ 2 ^ k * 2 ^ (32 - k)
    product = pow_congr total ∙ pow_add k (32 - k)
