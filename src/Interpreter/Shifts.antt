-- ===== src/Interpreter/Shifts.antt =====
-- The barrel shifter of Core/HLCore.cpp does what as many shifts by one bit do.
use ndse_core.Base.{ℕ, zero, suc, ◌+◌, ◌-◌, ◌*◌, ◌/◌, ◌%◌, ◌^◌, ◌<◌, ◌≡◌, ◌≢◌, ◌⊎◌, arith}
use ndse_core.Base.{refl, ap, sym, ◌∙◌, ◌==◌, if◌then◌else◌, rotr32, inl, inr}
use ndse_core.Base.{true, false}
use ndse_core.Disassembler.{Shift}
use ndse_core.Interpreter.Shifter.{shifter, shift_by, single_bit}
use ndse_core.Interpreter.Steps.{shift_once, shift_each, value_ror}
use ndse_core.Interpreter.Steps.{power_down}
use ndse_core.Interpreter.Carry.{Agrees, agree, single_bit-zero}
use ndse_core.Interpreter.Linear.{lsl-Agrees, lsr-Agrees, asr-Agrees}

-- Thirty-two rotations by one are none.
period :
    (r j x : ℕ)
    → x < 2 ^ 32
    → (shift_each Shift.ror (r + 32 * j) x).1 ≡ (shift_each Shift.ror r x).1
period r zero x lt = ap (λ k. (shift_each Shift.ror k x).1) (omega arith)
period r (suc j) x lt =
    ap (λ k. (shift_each Shift.ror k x).1) {y = r + 32 * j + 32} (omega arith)
    ∙ around (r + 32 * j)
    ∙ period r j x lt
  where
    full : (shift_each Shift.ror 32 x).1 ≡ x
    full = value_ror 32 x (omega arith) lt ∙ omega arith

    around : (m : ℕ) → (shift_each Shift.ror (m + 32) x).1 ≡ (shift_each Shift.ror m x).1
    around zero =
        ap (λ k. (shift_each Shift.ror k x).1) {x = zero + 32} {y = 32} (omega arith) ∙ full
    around (suc m) =
        ap (λ k. (shift_each Shift.ror k x).1) {x = suc m + 32} {y = suc (m + 32)} (omega arith)
        ∙ ap (λ y. (shift_once Shift.ror y).1) (around m)

ror-parity : (x k : ℕ) → k < 32 → rotr32 x k % 2 ≡ x / 2 ^ k % 2
ror-parity x k le =
    ap (λ t. (x / 2 ^ k + x % 2 ^ k * t) % 2) (power_down k le)
    ∙ cancel (x / 2 ^ k) (x % 2 ^ k) (2 ^ (31 - k))
  where
    cancel : (a b q : ℕ) → (a + b * (q * 2)) % 2 ≡ a % 2
    cancel a b q = let even : b * (q * 2) ≡ b * q * 2 = omega arith in omega (arith, even)

ror-Agrees :
    (x k cpsr : ℕ)
    → x < 2 ^ 32
    → Agrees (shift_by x (suc k) Shift.ror cpsr) (shift_each Shift.ror (suc k) x)
unfolding shift_by
ror-Agrees x k cpsr lt =
    let n = suc k in
    let r = k % 32 in
    let split : k ≡ r + 32 * (k / 32) = omega arith in
    let value : (shift_each Shift.ror k x).1 ≡ rotr32 x r =
      ap (λ j. (shift_each Shift.ror j x).1) split
      ∙ period r (k / 32) x lt
      ∙ value_ror r x (omega arith) lt in
    let step = ap (shift_once Shift.ror) (value ∙ sym (value_ror r x (omega arith) lt)) in
    let out : (single_bit x r == 0) ≡ ((shift_each Shift.ror n x).0 == 0) =
      single_bit-zero x r
      ∙ ap (λ t. t == 0) (sym (ap (λ y. y % 2) value ∙ ror-parity x r (omega arith))) in
    let next : (shift_each Shift.ror n x).1 ≡ rotr32 x (suc r) =
      ap (λ t. t.1) step ∙ value_ror (suc r) x (omega arith) lt in
    let whole : ℕ × ℕ = (single_bit x 31, x) in
    let part : ℕ × ℕ = (single_bit x (n % 32 - 1), rotr32 x (n % 32)) in
    let cases : (r ≡ 31) ⊎ (r < 31) = omega arith in
    elim cases [
      | inl e ↦
          let none_left : (n % 32 == 0) ≡ true = ground arith in
          agree (ap (λ b. if b then whole else part) none_left) refl (
            ap (λ j. single_bit x j == 0) (sym e) ∙ out,
            sym (next ∙ ap (λ j. rotr32 x (suc j)) e ∙ omega arith),
          )
      | inr le ↦
          let some_left : (n % 32 == 0) ≡ false = ground arith in
          let amount : n % 32 ≡ suc r = omega arith in
          let less : n % 32 - 1 ≡ r = omega arith in
          agree (ap (λ b. if b then whole else part) some_left) refl
            (ap (λ j. single_bit x j == 0) less ∙ out, sym (next ∙ ap (rotr32 x) (sym amount)))
    ]

-- A shift of a word other than RRX by an amount from 1 to 255 gives the word that as many shifts by one
-- give, and a carry that is set just when the last bit that falls out is.
pub shifter-shift_each :
    (op : Shift) (x amount cpsr : ℕ)
    → op ≢ Shift.rrx
    → x < 2 ^ 32
    → 0 < amount
    → amount < 256
    → Agrees (shifter x amount op cpsr) (shift_each op amount x)
unfolding shifter
shifter-shift_each op x zero cpsr ne lt pos le = absurd (omega arith)
shifter-shift_each op x (suc k) cpsr ne lt pos le =
    let n = suc k in
    let same : n % 2 ^ 8 ≡ n = omega arith in
    let some_left : (n == 0) ≡ false = ground arith in
    agree
      (ap (λ j. if j == 0 then (single_bit cpsr 29, x) else shift_by x j op cpsr) same
        ∙ ap (λ b. if b then (single_bit cpsr 29, x) else shift_by x n op cpsr) some_left)
      refl (by_operation op ne)
  where
    by_operation :
        (o : Shift) → o ≢ Shift.rrx → Agrees (shift_by x (suc k) o cpsr) (shift_each o (suc k) x)
    by_operation Shift.lsl ne = lsl-Agrees x k cpsr lt
    by_operation Shift.lsr ne = lsr-Agrees x k cpsr lt
    by_operation Shift.asr ne = asr-Agrees x k cpsr lt
    by_operation Shift.ror ne = ror-Agrees x k cpsr lt
    by_operation Shift.rrx ne = absurd (ne refl)
