-- ===== src/Printer/Hex.antt =====
-- Reading back the numbers that the printer writes in hexadecimal (`cat_hex` and `cat_hex8` of
-- Core/Disassembler.h).
use ndse_core.Base.{ℕ, zero, suc, ◌+◌, ◌-◌, ◌*◌, ◌/◌, ◌%◌, ◌<◌, ◌^◌, ◌==◌, ◌≡◌, ◌≢◌, ◌⊎◌, refl, sym}
use ndse_core.Base.{ap, ◌∙◌, arith, List, [], ◌∷◌, ◌++◌, inl, inr}
use ndse_core.Base.{if◌then◌else◌, ltb, get_or, if-else}
use native.Mathlib.Nat.{pow-suc}
use ndse_core.Base.Table.{tabulate, get_or-tabulate}
use ndse_core.Printer.{nibbles, cat, cat_hex, cat_hex8}
use ndse_core.Printer.Pieces.{cat_hex-digits, cat_hex8-digits, cat-cat, cat-nil}
use ndse_core.Printer.Tokens.{hex_digits, hex8_digits}

-- The number that a digit stands for, and a sequence of them, the highest first.
unfoldable pub digit_value : ℕ → ℕ
digit_value x = if ltb x b'A' then x - b'0' else x - b'A' + 10

unfoldable pub read_hex : ℕ → List ℕ → ℕ
read_hex acc [] = acc
read_hex acc (x ∷ digits) = read_hex (acc * 16 + digit_value x) digits

-- The digit of a nibble by arithmetic.
abbrev digit : ℕ → ℕ
digit n = if ltb n 10 then b'0' + n else b'A' + n - 10

nibbles-digit : (n : ℕ) → n < 16 → get_or nibbles n 0 ≡ digit n
unfolding tabulate
nibbles-digit n h =
    let same : 0 + n ≡ n = omega arith in get_or-tabulate digit 16 0 n h ∙ ap digit same

digit_value-nibbles : (n : ℕ) → n < 16 → digit_value (get_or nibbles n 0) ≡ n
unfolding digit_value
digit_value-nibbles n h = ap digit_value (nibbles-digit n h) ∙ ground arith

read_hex-append :
    (acc : ℕ) (xs ys : List ℕ) → read_hex acc (xs ++ ys) ≡ read_hex (read_hex acc xs) ys
unfolding read_hex
read_hex-append acc [] ys = refl
read_hex-append acc (x ∷ xs) ys = read_hex-append (acc * 16 + digit_value x) xs ys

read_hex-last :
    (acc value : ℕ) → read_hex acc (get_or nibbles (value % 16) 0 ∷ []) ≡ acc * 16 + value % 16
unfolding read_hex
read_hex-last acc value = ap (λ d. acc * 16 + d) (digit_value-nibbles (value % 16) (omega arith))

read_nothing : (value : ℕ) → value ≡ 0 → read_hex 0 [] ≡ value
unfolding read_hex
read_nothing value e = sym e

-- The high digits are left out where they are 0.
read_high :
    (high : ℕ) (digits : List ℕ)
    → read_hex 0 digits ≡ high
    → read_hex 0 (if high == 0 then [] else digits) ≡ high
read_high high digits h =
    let cases : (high ≡ 0) ⊎ (high ≢ 0) = ground arith in
    elim cases [
      | inl e ↦ rw e (read_nothing 0 refl)
      | inr n ↦ ap (read_hex 0) (if-else high [] digits n) ∙ h
    ]

read_hex-digits : (n value : ℕ) → value < 16 ^ n → read_hex 0 (hex_digits n value) ≡ value
unfolding hex_digits
read_hex-digits zero value h = read_nothing value (omega arith)
read_hex-digits (suc n) value h =
    let size = pow-suc 16 n in
    let high = read_hex-digits n (value / 16) (omega (arith, size)) in
    read_hex-append 0 (if value / 16 == 0 then [] else hex_digits n (value / 16))
      (get_or nibbles (value % 16) 0 ∷ [])
    ∙ ap (λ acc. read_hex acc (get_or nibbles (value % 16) 0 ∷ []))
        (read_high (value / 16) (hex_digits n (value / 16)) high)
    ∙ read_hex-last (value / 16) value
    ∙ omega arith

-- Eight digits are the digits of the number in their places.
read_hex8 : (value : ℕ) → value < 2 ^ 32 → read_hex 0 (hex8_digits value) ≡ value
unfolding read_hex
read_hex8 value h =
    let d0 = digit_value-nibbles (value % 16) (omega arith) in
    let d1 = digit_value-nibbles (value / 2 ^ 4 % 16) (omega arith) in
    let d2 = digit_value-nibbles (value / 2 ^ 8 % 16) (omega arith) in
    let d3 = digit_value-nibbles (value / 2 ^ 12 % 16) (omega arith) in
    let d4 = digit_value-nibbles (value / 2 ^ 16 % 16) (omega arith) in
    let d5 = digit_value-nibbles (value / 2 ^ 20 % 16) (omega arith) in
    let d6 = digit_value-nibbles (value / 2 ^ 24 % 16) (omega arith) in
    let d7 = digit_value-nibbles (value / 2 ^ 28 % 16) (omega arith) in
    omega (arith, d0, d1, d2, d3, d4, d5, d6, d7)

written_text : (xs : List ℕ) → cat (cat xs []) [] ≡ xs
written_text xs = cat-cat xs [] [] ∙ cat-nil xs

-- Both ways to write a 32-bit number read back as the number.
pub read_hex-cat_hex :
    (value : ℕ)
    → value < 2 ^ 32
    → (read_hex 0 (cat (cat_hex value []) []) ≡ value)
      × (read_hex 0 (cat (cat_hex8 value []) []) ≡ value)
read_hex-cat_hex value h = (
  ap (λ t. read_hex 0 (cat t [])) (cat_hex-digits 8 value [])
      ∙ ap (read_hex 0) (written_text (hex_digits 8 value))
      ∙ read_hex-digits 8 value h,
  ap (λ t. read_hex 0 (cat t [])) (cat_hex8-digits value [])
      ∙ ap (read_hex 0) (written_text (hex8_digits value))
      ∙ read_hex8 value h,
)
