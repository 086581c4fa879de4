-- ===== src/Interpreter/Steps.antt =====
-- The barrel shifter of Core/HLCore.cpp against shifts by one bit.
use native.Mathlib.Nat.{pow-suc, div-div-eq-div-mul, div-add-mod}
use ndse_core.Base.{ℕ, zero, suc, ◌+◌, ◌-◌, ◌*◌, ◌/◌, ◌%◌, ◌^◌, ◌<◌, ◌≤◌, ◌≡◌, arith}
use ndse_core.Base.{refl, ap, ap₂, sym, ◌∙◌, ltb, asr32, rotr32, shl32, inl, inr}
use ndse_core.Base.Pow.{pow_add, pow_pos, le-div_of_mul, div-lt_of_mul}
use ndse_core.Base.{Bool-cases}
use ndse_core.Disassembler.{Shift}

-- A shift by one: the bit that falls out and the word.
abbrev pub shift_once : Shift → ℕ → ℕ × ℕ
shift_once Shift.lsl x = (x / 2 ^ 31, x * 2 % 2 ^ 32)
shift_once Shift.lsr x = (x % 2, x / 2)
shift_once Shift.asr x = (x % 2, x / 2 + x / 2 ^ 31 * 2 ^ 31)
shift_once Shift.ror x = (x % 2, x / 2 + x % 2 * 2 ^ 31)
shift_once Shift.rrx x = (0, x)

-- `n` shifts by one: the last bit that fell out and the word.
abbrev pub shift_each : Shift → (n x : ℕ) → ℕ × ℕ
shift_each op zero x = (0, x)
shift_each op (suc n) x = shift_once op (shift_each op n x).1

-- With `p = 2 ^ k` and `q = 2 ^ (31 - k)`.
pub complement : (k : ℕ) → k < 32 → 2 ^ k * 2 ^ (31 - k) ≡ 2 ^ 31
complement k lt = sym (pow_add k (31 - k)) ∙ ap (λ e. 2 ^ e) {y = 31} (omega arith)

half_shift : (n x : ℕ) → x / 2 ^ suc n ≡ x / 2 ^ n / 2
half_shift n x = ap (λ t. x / t) (pow-suc 2 n) ∙ sym (div-div-eq-div-mul x (2 ^ n) 2)

pub value_lsl : (n x : ℕ) → x < 2 ^ 32 → (shift_each Shift.lsl n x).1 ≡ shl32 x n
value_lsl zero x lt = omega arith
value_lsl (suc n) x lt =
    ap (λ y. y * 2 % 2 ^ 32) (value_lsl n x lt)
    ∙ doubled (x * 2 ^ n)
    ∙ ap (λ y. y % 2 ^ 32) (regroup x (2 ^ n) ∙ ap (λ t. x * t) (sym (pow-suc 2 n)))
  where
    doubled : (y : ℕ) → y % 2 ^ 32 * 2 % 2 ^ 32 ≡ y * 2 % 2 ^ 32
    doubled y = omega arith

    regroup : (a b : ℕ) → a * b * 2 ≡ a * (b * 2)
    regroup a b = omega arith

pub value_lsr : (n x : ℕ) → (shift_each Shift.lsr n x).1 ≡ x / 2 ^ n
value_lsr zero x = omega arith
value_lsr (suc n) x = ap (λ y. y / 2) (value_lsr n x) ∙ sym (half_shift n x)

-- The remainder by twice `p`.
mod_double : (x p : ℕ) → x % (p * 2) ≡ x % p + p * (x / p % 2)
mod_double x p =
    let quotient = div-div-eq-div-mul x p 2 in
    let whole = div-add-mod x (p * 2) in
    let half = div-add-mod x p in
    let halves : x / p ≡ x / p / 2 * 2 + x / p % 2 = omega arith in
    let product = ap (λ t. p * t) halves ∙ expand p (x / p / 2) (x / p % 2) in
    let same = ap (λ t. p * 2 * t) quotient in omega (arith, whole, half, product, same)
  where
    expand : (a b c : ℕ) → a * (b * 2 + c) ≡ a * 2 * b + a * c
    expand a b c = omega arith

ror_step :
    (a b c p q : ℕ)
    → p * q ≡ 2 ^ 31
    → c ≡ a % 2
    → (a + b * (q * 2)) / 2 + (a + b * (q * 2)) % 2 * 2 ^ 31 ≡ a / 2 + (b + p * c) * q
ror_step a b c p q e f = grind arith

powers : (k : ℕ) → k < 31 → 2 ^ k * 2 ^ (30 - k) ≡ 2 ^ 30
powers k lt = sym (pow_add k (30 - k)) ∙ ap (λ e. 2 ^ e) {y = 30} (omega arith)

power_next : (k : ℕ) → k < 31 → 2 ^ (31 - k) ≡ 2 ^ (30 - k) * 2
power_next k lt = ap (λ e. 2 ^ e) {y = suc (30 - k)} (omega arith) ∙ pow-suc 2 (30 - k)

pub power_down : (k : ℕ) → k < 32 → 2 ^ (32 - k) ≡ 2 ^ (31 - k) * 2
power_down k lt = ap (λ e. 2 ^ e) {y = suc (31 - k)} (omega arith) ∙ pow-suc 2 (31 - k)

pub power_same : (k : ℕ) → 2 ^ (32 - suc k) ≡ 2 ^ (31 - k)
power_same k = ap (λ e. 2 ^ e) {y = 31 - k} (omega arith)

pub value_ror : (n x : ℕ) → n < 33 → x < 2 ^ 32 → (shift_each Shift.ror n x).1 ≡ rotr32 x n
value_ror zero x le lt = omega arith
value_ror (suc n) x le lt =
    let p = 2 ^ n in
    let q = 2 ^ (31 - n) in
    let y = shift_each Shift.ror n x in
    let before : y.1 ≡ x / p + x % p * (q * 2) =
      value_ror n x (omega arith) lt ∙ ap (λ t. x / p + x % p * t) (power_down n (omega arith)) in
    ap (λ t. t / 2 + t % 2 * 2 ^ 31) before
    ∙ ror_step (x / p) (x % p) (x / p % 2) p q (complement n (omega arith)) refl
    ∙ ap₂ (λ a b. a + b * q) (sym (half_shift n x)) (sym (mod_double x p))
    ∙ ap₂ (λ s t. x / 2 ^ suc n + x % s * t) (sym (pow-suc 2 n)) (sym (power_same n))

asr_step :
    (a q : ℕ)
    → q ≤ 2 ^ 31
    → q ≤ a
    → a < q * 2
    → (a + (2 ^ 32 - q * 2)) / 2 + (a + (2 ^ 32 - q * 2)) / 2 ^ 31 * 2 ^ 31 ≡ a / 2 + (2 ^ 32 - q)
asr_step a q b c d = omega arith

-- A word with its sign bit keeps that bit at `31 - k` when it is shifted by `k`.
sign_quotient :
    (x p q : ℕ) → 0 < p → p * q ≡ 2 ^ 31 → 2 ^ 31 ≤ x → x < 2 ^ 32 → (q ≤ x / p) × (x / p < q * 2)
sign_quotient x p q pos e h lt =
    let doubled : p * (q * 2) ≡ p * q * 2 = omega arith in
    (
      le-div_of_mul x p q pos (omega (arith, e)),
      div-lt_of_mul x p (q * 2) pos (omega (arith, e, doubled)),
    )

value_asr_negative :
    (n x : ℕ)
    → n < 32
    → 2 ^ 31 ≤ x
    → x < 2 ^ 32
    → (shift_each Shift.asr n x).1 ≡ x / 2 ^ n + (2 ^ 32 - 2 ^ (32 - n))
value_asr_negative zero x le h lt = omega arith
value_asr_negative (suc n) x le h lt =
    let p = 2 ^ n in
    let q = 2 ^ (31 - n) in
    let bounds = sign_quotient x p q (pow_pos n) (complement n (omega arith)) h lt in
    let small : q ≤ 2 ^ 31 =
      omega (arith, complement n (omega arith), le_product p q (pow_pos n)) in
    ap (λ t. t / 2 + t / 2 ^ 31 * 2 ^ 31)
      (value_asr_negative n x (omega arith) h lt
        ∙ ap (λ t. x / p + (2 ^ 32 - t)) (power_down n (omega arith)))
    ∙ asr_step (x / p) q small bounds.0 bounds.1
    ∙ ap₂ (λ s t. s + (2 ^ 32 - t)) (sym (half_shift n x)) (sym (power_same n))
  where
    le_product : (a b : ℕ) → 0 < a → b ≤ a * b
    le_product a b h = grind arith

value_asr_positive : (n x : ℕ) → x < 2 ^ 31 → (shift_each Shift.asr n x).1 ≡ x / 2 ^ n
value_asr_positive zero x lt = omega arith
value_asr_positive (suc n) x lt =
    let small : x / 2 ^ n < 2 ^ 31 = omega (arith, quotient_le x (2 ^ n)) in
    ap (λ t. t / 2 + t / 2 ^ 31 * 2 ^ 31) (value_asr_positive n x lt)
    ∙ halved (x / 2 ^ n) small
    ∙ sym (half_shift n x)
  where
    quotient_le : (a b : ℕ) → a / b ≤ a
    quotient_le a b = grind (arith, div-add-mod a b)

    halved : (a : ℕ) → a < 2 ^ 31 → a / 2 + a / 2 ^ 31 * 2 ^ 31 ≡ a / 2
    halved a h = omega arith

pub value_asr : (n x : ℕ) → n < 32 → x < 2 ^ 32 → (shift_each Shift.asr n x).1 ≡ asr32 x n
value_asr n x le lt = elim (Bool-cases (ltb x (2 ^ 31))) [
  | inl e ↦ rw e (value_asr_positive n x (ground arith))
  | inr e ↦ rw e (value_asr_negative n x le (ground arith) lt)
]
