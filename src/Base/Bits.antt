-- ===== src/Base/Bits.antt =====
-- Laws of `bit_and` and `bit_or` at variables, from the equations for the lowest digit.
use Prim.Native.Nat.{ℕ, zero, suc, ◌+◌, ◌*◌, ◌/◌, ◌%◌, ◌^◌, ◌≤◌, ◌<◌, bit_and, bit_or}
use Prim.Native.Nat.{digits, min, max, bit_and-bitwise, bit_or-bitwise}
use mathlib.Core.Path.{◌≡◌, refl, sym, ◌∙◌, ap, ap₂}
use mathlib.Core.Logic.{◌⊎◌, inl, inr}
use mathlib.Core.Bool.{Bool, true, false, ◌&&◌}
use native.Mathlib.Nat.{pow-suc, div-one, div-div-eq-div-mul}
use native.Mathlib.Omega.{arith}
use ndse_core.Base.Tests.{if◌then◌else◌, ◌==◌}
use ndse_core.Base.Word.{bit}

-- Reading more digits than the first number has changes nothing.
module _ (z : ℕ → ℕ) (f : ℕ → ℕ → ℕ) where
  one_more_digit : (n a b : ℕ) → a ≤ n → digits z f (suc n) a b ≡ digits z f n a b
  one_more_digit zero zero b p = refl
  one_more_digit (suc n) zero b p = refl
  one_more_digit zero (suc a) b p = absurd (omega arith)
  one_more_digit (suc n) (suc a) b p =
      let high = one_more_digit n (suc a / 2) (b / 2) (omega arith) in
      ap (λ h. h * 2 + f (suc a % 2) (b % 2)) high

  more_digits : (m n a b : ℕ) → a ≤ n → n ≤ m → digits z f m a b ≡ digits z f n a b
  more_digits zero n a b p q = let none : 0 ≡ n = omega arith in ap (λ k. digits z f k a b) none
  more_digits (suc m) n a b p q =
      let last : (n ≤ m) ⊎ (suc m ≡ n) = omega arith in
      elim last [
        | inl r ↦ one_more_digit m a b (omega arith) ∙ more_digits m n a b p r
        | inr e ↦ ap (λ k. digits z f k a b) e
      ]

and_step : (a b : ℕ) → bit_and a b ≡ bit_and (a / 2) (b / 2) * 2 + min (a % 2) (b % 2)
and_step zero b = bit_and-bitwise 0 b ∙ omega (arith, bit_and-bitwise 0 (b / 2))
and_step (suc a) b =
    let half = suc a / 2 in
    let enough = more_digits (λ b. zero) min a half half (b / 2) (omega arith) (omega arith) in
    let rest = bit_and-bitwise half (b / 2) in
    bit_and-bitwise (suc a) b ∙ ap (λ h. h * 2 + min (suc a % 2) (b % 2)) (enough ∙ sym rest)

or_step : (a b : ℕ) → bit_or a b ≡ bit_or (a / 2) (b / 2) * 2 + max (a % 2) (b % 2)
or_step zero b = bit_or-bitwise 0 b ∙ omega (arith, bit_or-bitwise 0 (b / 2))
or_step (suc a) b =
    let half = suc a / 2 in
    let enough = more_digits (λ b. b) max a half half (b / 2) (omega arith) (omega arith) in
    let rest = bit_or-bitwise half (b / 2) in
    bit_or-bitwise (suc a) b ∙ ap (λ h. h * 2 + max (suc a % 2) (b % 2)) (enough ∙ sym rest)

digit_cases : (x : ℕ) → (x % 2 ≡ 0) ⊎ (x % 2 ≡ 1)
digit_cases x = omega arith

min_below : (x y : ℕ) → min (x % 2) (y % 2) < 2
min_below x y = elim (digit_cases x) [
  | inl e ↦ rw e omega arith
  | inr e ↦ elim (digit_cases y) [
    | inl e' ↦ rw (e, e') omega arith
    | inr e' ↦ rw (e, e') omega arith
  ]
]

pub and-half : (a b : ℕ) → bit_and a b / 2 ≡ bit_and (a / 2) (b / 2)
and-half a b = omega (arith, and_step a b, min_below a b)

low_and : (x y : ℕ) → min (x % 2) (y % 2) ≡ (if (x % 2 == 1) && (y % 2 == 1) then 1 else 0)
low_and x y = elim (digit_cases x) [
  | inl e ↦ elim (digit_cases y) [ inl e' ↦ rw (e, e') refl | inr e' ↦ rw (e, e') refl ]
  | inr e ↦ elim (digit_cases y) [ inl e' ↦ rw (e, e') refl | inr e' ↦ rw (e, e') refl ]
]

pub and-parity : (a b : ℕ) → bit_and a b % 2 ≡ min (a % 2) (b % 2)
and-parity a b = omega (arith, and_step a b, min_below a b)

max_below : (x y : ℕ) → max (x % 2) (y % 2) < 2
max_below x y = elim (digit_cases x) [
  | inl e ↦ rw e omega arith
  | inr e ↦ elim (digit_cases y) [
    | inl e' ↦ rw (e, e') omega arith
    | inr e' ↦ rw (e, e') omega arith
  ]
]

pub or-half : (a b : ℕ) → bit_or a b / 2 ≡ bit_or (a / 2) (b / 2)
or-half a b = omega (arith, or_step a b, max_below a b)

pub or-parity : (a b : ℕ) → bit_or a b % 2 ≡ max (a % 2) (b % 2)
or-parity a b = omega (arith, or_step a b, max_below a b)

min_zero : (x : ℕ) → min x 0 ≡ 0
min_zero x = omega arith

and-zero_fuel : (n a : ℕ) → a ≤ n → bit_and a 0 ≡ 0
and-zero_fuel zero zero p = refl
and-zero_fuel zero (suc a) p = absurd (omega arith)
and-zero_fuel (suc n) a p =
    omega (arith, and_step a 0, min_zero (a % 2), and-zero_fuel n (a / 2) (omega arith))

pub and-zero : (a : ℕ) → bit_and a 0 ≡ 0
and-zero a = and-zero_fuel a a (omega arith)

pub bit-half : (x i : ℕ) → bit x (suc i) ≡ bit (x / 2) i
bit-half x i =
    ap (λ t. t % 2 == 1)
      (ap (λ t. x / t) (pow-suc 2 i ∙ swapped (2 ^ i)) ∙ sym (div-div-eq-div-mul x 2 (2 ^ i)))
  where
    swapped : (t : ℕ) → t * 2 ≡ 2 * t
    swapped t = omega arith

doubled : (t : ℕ) → t * 2 / 2 ≡ t
doubled t = omega arith

doubled_choice : (b : Bool) (t : ℕ) → (if b then t else 0) * 2 ≡ (if b then t * 2 else 0)
doubled_choice true t = refl
doubled_choice false t = refl

-- `a & (1 << i)`
pub and-pow : (i a : ℕ) → bit_and a (2 ^ i) ≡ (if bit a i then 2 ^ i else 0)
and-pow zero a =
    and_step a 1 ∙ omega (arith, and-zero (a / 2)) ∙ low_and a 1 ∙ elim (digit_cases a) [
      | inl e ↦ rw (e, div-one a) rw e refl
      | inr e ↦ rw (e, div-one a) rw e refl
    ]
and-pow (suc i) a =
    let whole = pow-suc 2 i in
    let high = ap (bit_and (a / 2)) (ap (λ t. t / 2) whole ∙ doubled (2 ^ i)) ∙ and-pow i (a / 2) in
    let low : min (a % 2) (2 ^ suc i % 2) ≡ 0 =
      ap (min (a % 2)) (omega (arith, whole)) ∙ min_zero (a % 2) in
    and_step a (2 ^ suc i)
    ∙ omega (arith, high, low)
    ∙ doubled_choice (bit (a / 2) i) (2 ^ i)
    ∙ ap₂ (λ b t. if b then t else 0) (sym (bit-half a i)) (sym whole)

and_comm_fuel : (n a b : ℕ) → a ≤ n → b ≤ n → bit_and a b ≡ bit_and b a
and_comm_fuel zero a b p q =
    let a_zero : a ≡ 0 = omega arith in
    let b_zero : b ≡ 0 = omega arith in ap₂ bit_and a_zero b_zero ∙ sym (ap₂ bit_and b_zero a_zero)
and_comm_fuel (suc n) a b p q =
    let rest = and_comm_fuel n (a / 2) (b / 2) (omega arith) (omega arith) in
    let low : min (a % 2) (b % 2) ≡ min (b % 2) (a % 2) = omega arith in
    omega (arith, and_step a b, and_step b a, rest, low)

pub and_comm : (a b : ℕ) → bit_and a b ≡ bit_and b a
and_comm a b = and_comm_fuel (a + b) a b (omega arith) (omega arith)

-- `a & (1 << i) & b` is that bit where both numbers have it, and 0 else.
pub and-pow_and :
    (i a b : ℕ) → bit_and (bit_and a (2 ^ i)) b ≡ (if bit a i && bit b i then 2 ^ i else 0)
and-pow_and i a b = ap (λ t. bit_and t b) (and-pow i a) ∙ chosen (bit a i)
  where
    chosen : (c : Bool) → bit_and (if c then 2 ^ i else 0) b ≡ (if c && bit b i then 2 ^ i else 0)
    chosen true = and_comm (2 ^ i) b ∙ and-pow i b
    chosen false = and_comm 0 b ∙ and-zero b

-- Where the mask ends in five ones and its complement in five zeros, the five bits are replaced.
pub replaced_low5 :
    (c v keep mask : ℕ)
    → keep % 32 ≡ 0
    → mask % 32 ≡ 31
    → bit_or (bit_and c keep) (bit_and v mask) % 32 ≡ v % 32
replaced_low5 c v keep mask h k =
    let w1 = replaced c v keep mask (omega arith) (omega arith) in
    let w2 = replaced (c / 2) (v / 2) (keep / 2) (mask / 2) (omega arith) (omega arith) in
    let w3 =
      replaced (c / 2 / 2) (v / 2 / 2) (keep / 2 / 2) (mask / 2 / 2) (omega arith) (omega arith) in
    let w4 =
      replaced (c / 2 / 2 / 2) (v / 2 / 2 / 2) (keep / 2 / 2 / 2) (mask / 2 / 2 / 2) (omega arith)
        (omega arith) in
    let w5 =
      replaced (c / 2 / 2 / 2 / 2) (v / 2 / 2 / 2 / 2) (keep / 2 / 2 / 2 / 2) (mask / 2 / 2 / 2 / 2)
        (omega arith) (omega arith) in
    omega (arith, w1.0, w1.1, w2.0, w2.1, w3.0, w3.1, w4.0, w4.1, w5.0, w5.1)
  where
    replaced :
        (c v keep mask : ℕ)
        → keep % 2 ≡ 0
        → mask % 2 ≡ 1
        → (bit_or (bit_and c keep) (bit_and v mask) % 2 ≡ v % 2)
          × (bit_or (bit_and c keep) (bit_and v mask) / 2
              ≡ bit_or (bit_and (c / 2) (keep / 2)) (bit_and (v / 2) (mask / 2)))
    replaced c v keep mask h k =
        let dropped = and-parity c keep in
        let taken = and-parity v mask in
        (
          or-parity (bit_and c keep) (bit_and v mask) ∙ omega arith,
          or-half (bit_and c keep) (bit_and v mask)
              ∙ ap₂ bit_or (and-half c keep) (and-half v mask),
        )

-- Two digits are both 1 where the smaller of them is.
both_ones : (x y : ℕ) → (min (x % 2) (y % 2) == 1) ≡ ((x % 2 == 1) && (y % 2 == 1))
both_ones x y = elim (digit_cases x) [
  | inl e ↦ elim (digit_cases y) [ inl e' ↦ rw (e, e') refl | inr e' ↦ rw (e, e') refl ]
  | inr e ↦ elim (digit_cases y) [ inl e' ↦ rw (e, e') refl | inr e' ↦ rw (e, e') refl ]
]

lowest_bit : (x : ℕ) → bit x 0 ≡ (x % 2 == 1)
lowest_bit x = ap (λ t. t % 2 == 1) (div-one x)

pub bit-and : (i a b : ℕ) → bit (bit_and a b) i ≡ (bit a i && bit b i)
bit-and zero a b =
    lowest_bit (bit_and a b)
    ∙ ap (λ t. t == 1) (and-parity a b)
    ∙ both_ones a b
    ∙ sym (ap₂ (λ s t. s && t) (lowest_bit a) (lowest_bit b))
bit-and (suc i) a b =
    bit-half (bit_and a b) i
    ∙ ap (λ t. bit t i) (and-half a b)
    ∙ bit-and i (a / 2) (b / 2)
    ∙ sym (ap₂ (λ s t. s && t) (bit-half a i) (bit-half b i))
