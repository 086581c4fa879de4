-- ===== src/Base/Xor.antt =====
-- Laws of `bit_xor` at variables, from the equation for the lowest digit.
use Prim.Native.Nat.{ℕ, zero, suc, ◌+◌, ◌*◌, ◌/◌, ◌%◌, ◌^◌, ◌≤◌, ◌<◌, bit_xor}
use Prim.Native.Nat.{digits, differ, bit_xor-bitwise}
use mathlib.Core.Path.{◌≡◌, refl, sym, ◌∙◌, ap}
use mathlib.Core.Logic.{◌⊎◌, inl, inr}
use native.Mathlib.Nat.{pow-suc, div-one, div-div-eq-div-mul}
use native.Mathlib.Omega.{arith}

-- `bit_xor` reads as many digits as its first number; reading more of them changes nothing.
abbrev read_digits : ℕ → ℕ → ℕ → ℕ
read_digits = digits (λ rest. rest) differ

one_more_digit : (n a b : ℕ) → a ≤ n → read_digits (suc n) a b ≡ read_digits n a b
one_more_digit zero zero b p = refl
one_more_digit (suc n) zero b p = refl
one_more_digit zero (suc a) b p = absurd (omega arith)
one_more_digit (suc n) (suc a) b p =
    let high = one_more_digit n (suc a / 2) (b / 2) (omega arith) in omega (arith, high)

more_digits : (m n a b : ℕ) → a ≤ n → n ≤ m → read_digits m a b ≡ read_digits n a b
more_digits zero n a b p q = let none : 0 ≡ n = omega arith in ap (λ k. read_digits k a b) none
more_digits (suc m) n a b p q =
    let last : (n ≤ m) ⊎ (suc m ≡ n) = omega arith in
    elim last [
      | inl r ↦ one_more_digit m a b (omega arith) ∙ more_digits m n a b p r
      | inr e ↦ ap (λ k. read_digits k a b) e
    ]

parity_differs : (x y : ℕ) → x < 2 → y < 2 → differ x y ≡ (x + y) % 2
parity_differs x y p q =
    let cases : (x ≡ 0) ⊎ (x ≡ 1) = omega arith in
    let cases' : (y ≡ 0) ⊎ (y ≡ 1) = omega arith in
    elim cases [
      | inl e ↦ elim cases' [ inl f ↦ rw (e, f) refl | inr f ↦ rw (e, f) refl ]
      | inr e ↦ elim cases' [ inl f ↦ rw (e, f) refl | inr f ↦ rw (e, f) refl ]
    ]

zero-xor : (b : ℕ) → bit_xor 0 b ≡ b
zero-xor b = bit_xor-bitwise 0 b

-- The lowest digit is the parity of the sum, and the others come from the halves.
xor_step : (a b : ℕ) → bit_xor a b ≡ bit_xor (a / 2) (b / 2) * 2 + (a + b) % 2
xor_step zero b = omega (arith, zero-xor b, zero-xor (b / 2))
xor_step (suc a) b =
    let half = suc a / 2 in
    let enough = more_digits a half half (b / 2) (omega arith) (omega arith) in
    let low = parity_differs (suc a % 2) (b % 2) (omega arith) (omega arith) in
    let whole = bit_xor-bitwise (suc a) b in
    let rest = bit_xor-bitwise half (b / 2) in omega (arith, whole, rest, enough, low)

-- Halving goes into both sides.
pub xor-half : (a b : ℕ) → bit_xor a b / 2 ≡ bit_xor (a / 2) (b / 2)
xor-half a b = omega (arith, xor_step a b)

pub xor-parity : (a b : ℕ) → bit_xor a b % 2 ≡ (a + b) % 2
xor-parity a b = omega (arith, xor_step a b)

-- Two numbers are equal if they have the same half and the same parity.
same_half_parity : (x y : ℕ) → x / 2 ≡ y / 2 → x % 2 ≡ y % 2 → x ≡ y
same_half_parity x y h p = omega arith

xor_comm_fuel : (n a b : ℕ) → a ≤ n → b ≤ n → bit_xor a b ≡ bit_xor b a
xor_comm_fuel zero zero zero p q = refl
xor_comm_fuel zero zero (suc b) p q = absurd (omega arith)
xor_comm_fuel zero (suc a) b p q = absurd (omega arith)
xor_comm_fuel (suc n) a b p q =
    omega (
      arith,
      xor_step a b,
      xor_step b a,
      xor_comm_fuel n (a / 2) (b / 2) (omega arith) (omega arith),
    )

pub xor_comm : (a b : ℕ) → bit_xor a b ≡ bit_xor b a
xor_comm a b = xor_comm_fuel (a + b) a b (omega arith) (omega arith)

xor_assoc_fuel :
    (n a b c : ℕ) → a ≤ n → b ≤ n → c ≤ n → bit_xor (bit_xor a b) c ≡ bit_xor a (bit_xor b c)
xor_assoc_fuel zero zero zero zero p q r = refl
xor_assoc_fuel zero zero zero (suc c) p q r = absurd (omega arith)
xor_assoc_fuel zero zero (suc b) c p q r = absurd (omega arith)
xor_assoc_fuel zero (suc a) b c p q r = absurd (omega arith)
xor_assoc_fuel (suc n) a b c p q r =
    same_half_parity (bit_xor (bit_xor a b) c) (bit_xor a (bit_xor b c))
      (xor-half (bit_xor a b) c
        ∙ ap (λ x. bit_xor x (c / 2)) (xor-half a b)
        ∙ xor_assoc_fuel n (a / 2) (b / 2) (c / 2) (omega arith) (omega arith) (omega arith)
        ∙ sym (xor-half a (bit_xor b c) ∙ ap (bit_xor (a / 2)) (xor-half b c)))
      (omega (
        arith,
        xor-parity (bit_xor a b) c,
        xor-parity a b,
        xor-parity a (bit_xor b c),
        xor-parity b c,
      ))

pub xor_assoc : (a b c : ℕ) → bit_xor (bit_xor a b) c ≡ bit_xor a (bit_xor b c)
xor_assoc a b c = xor_assoc_fuel (a + b + c) a b c (omega arith) (omega arith) (omega arith)

xor_self_fuel : (n a : ℕ) → a ≤ n → bit_xor a a ≡ 0
xor_self_fuel zero zero p = refl
xor_self_fuel zero (suc a) p = absurd (omega arith)
xor_self_fuel (suc n) a p = omega (arith, xor_step a a, xor_self_fuel n (a / 2) (omega arith))

pub xor_self : (a : ℕ) → bit_xor a a ≡ 0
xor_self a = xor_self_fuel a a (omega arith)

pub xor-zero : (a : ℕ) → bit_xor a 0 ≡ a
xor-zero a = xor_comm a 0 ∙ zero-xor a

-- A multiple of a power of two and a number below it share no bit.
pub xor_apart : (k h l : ℕ) → l < 2 ^ k → bit_xor (h * 2 ^ k) l ≡ h * 2 ^ k + l
xor_apart zero h l p =
    let none_left : l ≡ 0 = omega arith in
    ap (bit_xor (h * 2 ^ 0)) none_left ∙ xor-zero (h * 2 ^ 0) ∙ omega (arith, none_left)
xor_apart (suc k) h l p =
    let even : h * 2 ^ suc k ≡ h * 2 ^ k * 2 = ap (λ t. h * t) (pow-suc 2 k) ∙ regroup (2 ^ k) in
    let halved : h * 2 ^ suc k / 2 ≡ h * 2 ^ k = omega (arith, even) in
    let rest = xor_apart k h (l / 2) (omega (arith, pow-suc 2 k)) in
    omega (arith, xor_step (h * 2 ^ suc k) l, ap (λ x. bit_xor x (l / 2)) halved, rest, even)
  where
    regroup : (t : ℕ) → h * (t * 2) ≡ h * t * 2
    regroup t = omega arith

half_shift : (n x : ℕ) → x / 2 ^ suc n ≡ x / 2 ^ n / 2
half_shift n x = ap (λ t. x / t) (pow-suc 2 n) ∙ sym (div-div-eq-div-mul x (2 ^ n) 2)

-- Shifting right goes into both sides.
pub xor-shift : (n a b : ℕ) → bit_xor a b / 2 ^ n ≡ bit_xor (a / 2 ^ n) (b / 2 ^ n)
xor-shift zero a b =
    omega (arith, ap (λ x. bit_xor x (b / 1)) (div-one a), ap (bit_xor a) (div-one b))
xor-shift (suc n) a b =
    half_shift n (bit_xor a b)
    ∙ ap (λ x. x / 2) (xor-shift n a b)
    ∙ xor-half (a / 2 ^ n) (b / 2 ^ n)
    ∙ sym (
        ap (λ x. bit_xor x (b / 2 ^ suc n)) (half_shift n a)
        ∙ ap (bit_xor (a / 2 ^ n / 2)) (half_shift n b))

pub xor-lt : (n a b : ℕ) → a < 2 ^ n → b < 2 ^ n → bit_xor a b < 2 ^ n
xor-lt zero zero zero p q = omega arith
xor-lt zero zero (suc b) p q = absurd (omega arith)
xor-lt zero (suc a) b p q = absurd (omega arith)
xor-lt (suc n) a b p q =
    let rest = xor-lt n (a / 2) (b / 2) (omega (arith, pow-suc 2 n)) (omega (arith, pow-suc 2 n)) in
    omega (arith, xor_step a b, rest, pow-suc 2 n)
