-- ===== src/Crc/Bitwise.antt =====
-- The table-driven checksum against the definition of CRC-16: reflected polynomial 0xA001, one bit
-- at a time.
use Prim.Native.Nat.{bit_xor}
use ndse_core.Base.{ℕ, zero, suc, ◌+◌, ◌*◌, ◌/◌, ◌%◌, ◌^◌, ◌<◌, ◌≡◌, refl, ap, ap₂, ◌∙◌, sym}
use ndse_core.Base.{arith, ◌==◌, List, [], ◌∷◌, ◌++◌, get_or, if◌then◌else◌}
use ndse_core.Base.Xor.{
  xor-half, xor-parity, xor_comm, xor_assoc, xor_self, xor-zero, xor_apart, xor-shift,
}
use native.Mathlib.Nat.{pow-suc}
use ndse_core.Base.Xor.{xor-lt}
use ndse_core.Base.Table.{tabulate, get_or-tabulate}
use ndse_core.Crc.{crc16tab, crc_loop, get_crc16}

-- One step of the shift register.
pub crc_bit : ℕ → ℕ
crc_bit v = if v % 2 == 1 then bit_xor (v / 2) 0xA001 else v / 2

-- `n` steps.
pub crc_bits : ℕ → ℕ → ℕ
crc_bits zero v = v
crc_bits (suc n) v = crc_bits n (crc_bit v)

-- The register after a message: each byte is added to the low end, and eight bits are shifted out.
pub crc_message : ℕ → List ℕ → ℕ
crc_message v [] = v
crc_message v (byte ∷ mem) = crc_message (crc_bits 8 (bit_xor v byte)) mem

xor_swap : (x y p : ℕ) → bit_xor (bit_xor x p) y ≡ bit_xor (bit_xor x y) p
xor_swap x y p = xor_assoc x p y ∙ ap (bit_xor x) (xor_comm p y) ∙ sym (xor_assoc x y p)

xor_cancel : (x y p : ℕ) → bit_xor (bit_xor x p) (bit_xor y p) ≡ bit_xor x y
xor_cancel x y p =
    xor_swap x (bit_xor y p) p
    ∙ xor_assoc x (bit_xor y p) p
    ∙ ap (bit_xor x) (xor_assoc y p p ∙ ap (bit_xor y) (xor_self p) ∙ xor-zero y)

-- The step is linear.
crc_bit-xor : (a b : ℕ) → crc_bit (bit_xor a b) ≡ bit_xor (crc_bit a) (crc_bit b)
unfolding crc_bit
crc_bit-xor a b = ground (
  arith,
  xor-half a b,
  xor-parity a b,
  xor_assoc (a / 2) (b / 2) 0xA001,
  xor_swap (a / 2) (b / 2) 0xA001,
  xor_cancel (a / 2) (b / 2) 0xA001,
)

crc_bits-xor : (n a b : ℕ) → crc_bits n (bit_xor a b) ≡ bit_xor (crc_bits n a) (crc_bits n b)
unfolding crc_bits
crc_bits-xor zero a b = refl
crc_bits-xor (suc n) a b =
    ap (crc_bits n) (crc_bit-xor a b) ∙ crc_bits-xor n (crc_bit a) (crc_bit b)

-- Zeros that are shifted out leave the rest as it is.
crc_bit-double : (v h : ℕ) → v ≡ h * 2 → crc_bit v ≡ h
unfolding crc_bit
crc_bit-double v h e = ground arith

crc_bits-shift : (n h : ℕ) → crc_bits n (h * 2 ^ n) ≡ h
unfolding crc_bits
crc_bits-shift zero h = omega arith
crc_bits-shift (suc n) h =
    ap (crc_bits n) (crc_bit-double (h * 2 ^ suc n) (h * 2 ^ n) doubled) ∙ crc_bits-shift n h
  where
    regroup : (t : ℕ) → h * (t * 2) ≡ h * t * 2
    regroup t = omega arith

    doubled : h * 2 ^ suc n ≡ h * 2 ^ n * 2
    doubled = ap (λ t. h * t) (pow-suc 2 n) ∙ regroup (2 ^ n)

-- Each table entry is its index, shifted through.
crc16tab-tabulate : crc16tab ≡ tabulate (crc_bits 8) 256 0
unfolding crc16tab tabulate crc_bits crc_bit
crc16tab-tabulate = refl

table_entry : (x : ℕ) → x < 256 → get_or crc16tab x 0 ≡ crc_bits 8 x
table_entry x h =
    let index : 0 + x ≡ x = omega arith in
    ap (λ table. get_or table x 0) crc16tab-tabulate
    ∙ get_or-tabulate (crc_bits 8) 256 0 x h
    ∙ ap (crc_bits 8) index

-- The loop's body shifts eight bits out at once.
crc_bits-table :
    (v byte : ℕ)
    → byte < 256
    → crc_bits 8 (bit_xor v byte) ≡ bit_xor (v / 2 ^ 8) (get_or crc16tab (bit_xor v byte % 256) 0)
crc_bits-table v byte h =
    let w = bit_xor v byte in
    let split : bit_xor (w / 2 ^ 8 * 2 ^ 8) (w % 256) ≡ w =
      xor_apart 8 (w / 2 ^ 8) (w % 256) (omega arith) ∙ omega arith in
    let high : w / 2 ^ 8 ≡ v / 2 ^ 8 =
      xor-shift 8 v byte ∙ ap (bit_xor (v / 2 ^ 8)) (omega arith) ∙ xor-zero (v / 2 ^ 8) in
    ap (crc_bits 8) (sym split)
    ∙ crc_bits-xor 8 (w / 2 ^ 8 * 2 ^ 8) (w % 256)
    ∙ ap₂ bit_xor (crc_bits-shift 8 (w / 2 ^ 8) ∙ high) (sym (table_entry (w % 256) (omega arith)))

abbrev pub IsBytes : List ℕ → Type 0
IsBytes [] = Unit
IsBytes (byte ∷ mem) = (byte < 256) × IsBytes mem

crc_loop-eq-crc_message : (v : ℕ) (mem : List ℕ) → IsBytes mem → crc_loop v mem ≡ crc_message v mem
unfolding crc_loop crc_message
crc_loop-eq-crc_message v [] h = refl
crc_loop-eq-crc_message v (byte ∷ mem) h =
    ap (λ x. crc_loop x mem) (sym (crc_bits-table v byte h.0))
    ∙ crc_loop-eq-crc_message (crc_bits 8 (bit_xor v byte)) mem h.1

crc_bit-lt : (v : ℕ) → v < 2 ^ 16 → crc_bit v < 2 ^ 16
unfolding crc_bit
crc_bit-lt v h = ground (arith, xor-lt 16 (v / 2) 0xA001)

crc_bits-lt : (n v : ℕ) → v < 2 ^ 16 → crc_bits n v < 2 ^ 16
unfolding crc_bits
crc_bits-lt zero v h = h
crc_bits-lt (suc n) v h = crc_bits-lt n (crc_bit v) (crc_bit-lt v h)

crc_message-lt : (v : ℕ) (mem : List ℕ) → v < 2 ^ 16 → IsBytes mem → crc_message v mem < 2 ^ 16
unfolding crc_message
crc_message-lt v [] h b = h
crc_message-lt v (byte ∷ mem) h b =
    crc_message-lt (crc_bits 8 (bit_xor v byte)) mem
      (crc_bits-lt 8 (bit_xor v byte) (xor-lt 16 v byte h (omega arith))) b.1

-- From a 16-bit start, the table-driven checksum of a list of bytes is CRC-16 with the reflected
-- polynomial 0xA001, computed bit by bit.
pub get_crc16-eq-crc_message :
    (crc : ℕ) (mem : List ℕ) → crc < 2 ^ 16 → IsBytes mem → get_crc16 crc mem ≡ crc_message crc mem
unfolding get_crc16
get_crc16-eq-crc_message crc mem h b =
    omega (arith, crc_loop-eq-crc_message crc mem b, crc_message-lt crc mem h b)

crc_loop-append : (v : ℕ) (xs ys : List ℕ) → crc_loop v (xs ++ ys) ≡ crc_loop (crc_loop v xs) ys
unfolding crc_loop
crc_loop-append v [] ys = refl
crc_loop-append v (x ∷ xs) ys =
    crc_loop-append (bit_xor (v / 2 ^ 8) (get_or crc16tab (bit_xor v x % 256) 0)) xs ys

-- A checksum can be taken over a message in pieces: the checksum of the first piece is the start
-- for the next.
pub get_crc16-append :
    (crc : ℕ) (xs ys : List ℕ)
    → crc < 2 ^ 16
    → IsBytes xs
    → get_crc16 crc (xs ++ ys) ≡ get_crc16 (get_crc16 crc xs) ys
unfolding get_crc16
get_crc16-append crc xs ys h b =
    let small : crc_loop crc xs % 2 ^ 16 ≡ crc_loop crc xs =
      omega (arith, crc_loop-eq-crc_message crc xs b, crc_message-lt crc xs h b) in
    ap (λ v. v % 2 ^ 16) (crc_loop-append crc xs ys ∙ ap (λ v. crc_loop v ys) (sym small))

pub get_crc16-lt : (crc : ℕ) (mem : List ℕ) → get_crc16 crc mem < 2 ^ 16
unfolding get_crc16
get_crc16-lt crc mem = omega arith

pub get_crc16-nil : (crc : ℕ) → crc < 2 ^ 16 → get_crc16 crc [] ≡ crc
unfolding get_crc16 crc_loop
get_crc16-nil crc h = omega arith
