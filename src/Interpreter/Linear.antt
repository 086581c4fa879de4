-- ===== src/Interpreter/Linear.antt =====
-- The shifts of the barrel shifter of Core/HLCore.cpp that do not go around.
use ndse_core.Base.{ℕ, suc, ◌+◌, ◌-◌, ◌*◌, ◌/◌, ◌%◌, ◌^◌, ◌<◌, ◌≤◌, ◌≡◌, ◌⊎◌, arith}
use ndse_core.Base.{refl, ap, sym, ◌∙◌, ◌==◌, if◌then◌else◌, ltb, asr32, shl32, inl, inr}
use ndse_core.Base.{Bool-cases, bit, true, false}
use ndse_core.Base.Pow.{pow_pos}
use ndse_core.Disassembler.{Shift}
use ndse_core.Interpreter.Shifter.{shift_by, single_bit}
use ndse_core.Interpreter.Steps.{shift_each, value_lsl, value_lsr, value_asr}
use ndse_core.Interpreter.Steps.{complement, power_down, power_same}
use ndse_core.Interpreter.Carry.{Agrees, agree, settled_at, single_bit-zero, top_bit}

pub lsl-Agrees :
    (x k cpsr : ℕ)
    → x < 2 ^ 32
    → Agrees (shift_by x (suc k) Shift.lsl cpsr) (shift_each Shift.lsl (suc k) x)
unfolding shift_by
lsl-Agrees x k cpsr lt =
    let n = suc k in
    let value = value_lsl n x lt in
    let carry = ap (λ y. y / 2 ^ 31) (value_lsl k x lt) in
    let gone : (shift_each Shift.lsl 32 x).1 ≡ 0 = value_lsl 32 x lt ∙ omega arith in
    let beyond : ℕ × ℕ = if n == 32 then (x % 2, 0) else (0, 0) in
    let below : ℕ × ℕ = (single_bit x (32 - n), shl32 x n) in
    let cases : (k < 31) ⊎ ((k ≡ 31) ⊎ (32 ≤ k)) = omega arith in
    elim cases [
      | inl le ↦
          let low : ltb n 32 ≡ true = ground arith in
          let top =
            top_bit x (2 ^ k) (2 ^ (31 - k)) (pow_pos k) (pow_pos (31 - k))
              (complement k (omega arith)) in
          agree (ap (λ b. if b then below else beyond) low) refl (
            single_bit-zero x (32 - n)
                ∙ ap (λ t. x / t % 2 == 0) (power_same k)
                ∙ ap (λ t. t == 0) (sym (carry ∙ top)),
            sym value,
          )
      | inr (inl e) ↦
          let high : ltb n 32 ≡ false = ground arith in
          let here : (n == 32) ≡ true = ground arith in
          let last : x * 2 ^ 31 % 2 ^ 32 / 2 ^ 31 ≡ x % 2 = omega arith in
          let same = ap (λ j. shift_each Shift.lsl (suc j) x) e in
          agree
            (ap (λ b. if b then below else beyond) high
              ∙ ap (λ b. if b then (x % 2, 0) else (0, 0)) here)
            same
            (ap (λ t. t == 0) (sym (ap (λ y. y / 2 ^ 31) (value_lsl 31 x lt) ∙ last)), sym gone)
      | inr (inr le) ↦
          let high : ltb n 32 ≡ false = ground arith in
          let more : (n == 32) ≡ false = ground arith in
          agree
            (ap (λ b. if b then below else beyond) high
              ∙ ap (λ b. if b then (x % 2, 0) else (0, 0)) more)
            (settled_at Shift.lsl 32 k x 0 gone refl le) (refl, refl)
    ]

pub lsr-Agrees :
    (x k cpsr : ℕ)
    → x < 2 ^ 32
    → Agrees (shift_by x (suc k) Shift.lsr cpsr) (shift_each Shift.lsr (suc k) x)
unfolding shift_by
lsr-Agrees x k cpsr lt =
    let n = suc k in
    let less : n - 1 ≡ k = omega arith in
    let carry : (single_bit x k == 0) ≡ ((shift_each Shift.lsr n x).0 == 0) =
      single_bit-zero x k ∙ ap (λ y. y % 2 == 0) (sym (value_lsr k x)) in
    let gone : (shift_each Shift.lsr 32 x).1 ≡ 0 = value_lsr 32 x ∙ omega arith in
    let last : ℕ × ℕ = (single_bit x 31, 0) in
    let beyond : ℕ × ℕ = if n == 32 then last else (0, 0) in
    let below : ℕ × ℕ = (single_bit x (n - 1), x / 2 ^ n) in
    let cases : (k < 31) ⊎ ((k ≡ 31) ⊎ (32 ≤ k)) = omega arith in
    elim cases [
      | inl le ↦
          let low : ltb n 32 ≡ true = ground arith in
          agree (ap (λ b. if b then below else beyond) low) refl
            (ap (λ j. single_bit x j == 0) less ∙ carry, sym (value_lsr n x))
      | inr (inl e) ↦
          let high : ltb n 32 ≡ false = ground arith in
          let here : (n == 32) ≡ true = ground arith in
          agree
            (ap (λ b. if b then below else beyond) high ∙ ap (λ b. if b then last else (0, 0)) here)
            refl
            (
              ap (λ j. single_bit x j == 0) (sym e) ∙ carry,
              sym (ap (λ j. (shift_each Shift.lsr (suc j) x).1) e ∙ gone),
            )
      | inr (inr le) ↦
          let high : ltb n 32 ≡ false = ground arith in
          let more : (n == 32) ≡ false = ground arith in
          agree
            (ap (λ b. if b then below else beyond) high ∙ ap (λ b. if b then last else (0, 0)) more)
            (settled_at Shift.lsr 32 k x 0 gone refl le) (refl, refl)
    ]

-- The low bit of a word that is shifted right with its sign.
asr-parity : (x k : ℕ) → k < 31 → asr32 x k % 2 ≡ x / 2 ^ k % 2
asr-parity x k le =
    let q = 2 ^ (31 - k) in
    let wide = power_down k (omega arith) in
    let small : q ≤ 2 ^ 31 =
      omega (arith, complement k (omega arith), le_product (2 ^ k) q (pow_pos k)) in
    let even : (x / 2 ^ k + (2 ^ 32 - 2 ^ (32 - k))) % 2 ≡ x / 2 ^ k % 2 =
      ap (λ t. (x / 2 ^ k + (2 ^ 32 - t)) % 2) wide ∙ cancel (x / 2 ^ k) q small in
    elim (Bool-cases (ltb x (2 ^ 31))) [ inl e ↦ rw e refl | inr e ↦ rw e even ]
  where
    le_product : (a b : ℕ) → 0 < a → b ≤ a * b
    le_product a b h = grind arith

    cancel : (a q : ℕ) → q ≤ 2 ^ 31 → (a + (2 ^ 32 - q * 2)) % 2 ≡ a % 2
    cancel a q h = omega arith

pub asr-Agrees :
    (x k cpsr : ℕ)
    → x < 2 ^ 32
    → Agrees (shift_by x (suc k) Shift.asr cpsr) (shift_each Shift.asr (suc k) x)
unfolding shift_by
asr-Agrees x k cpsr lt =
    let n = suc k in
    let less : n - 1 ≡ k = omega arith in
    let beyond : ℕ × ℕ = if bit x 31 then (1, 0xFFFFFFFF) else (0, 0) in
    let below : ℕ × ℕ = (single_bit x (n - 1), asr32 x n) in
    let cases : (k < 31) ⊎ (31 ≤ k) = omega arith in
    elim cases [
      | inl le ↦
          let low : ltb n 32 ≡ true = ground arith in
          let out = ap (λ y. y % 2) (value_asr k x (omega arith) lt) ∙ asr-parity x k le in
          agree (ap (λ b. if b then below else beyond) low) refl (
            ap (λ j. single_bit x j == 0) less ∙ single_bit-zero x k ∙ ap (λ t. t == 0) (sym out),
            sym (value_asr n x (omega arith) lt),
          )
      | inr le ↦
          let high : ltb n 32 ≡ false = ground arith in
          elim (Bool-cases (bit x 31)) [
            | inl e ↦
                let ones : (shift_each Shift.asr 31 x).1 ≡ 0xFFFFFFFF =
                  value_asr 31 x (omega arith) lt ∙ ground arith in
                agree
                  (ap (λ b. if b then below else beyond) high
                    ∙ ap (λ b. if b then (1, 0xFFFFFFFF) else (0, 0)) e)
                  (settled_at Shift.asr 31 k x 0xFFFFFFFF ones refl le) (refl, refl)
            | inr e ↦
                let none_left : (shift_each Shift.asr 31 x).1 ≡ 0 =
                  value_asr 31 x (omega arith) lt ∙ ground arith in
                agree
                  (ap (λ b. if b then below else beyond) high
                    ∙ ap (λ b. if b then (1, 0xFFFFFFFF) else (0, 0)) e)
                  (settled_at Shift.asr 31 k x 0 none_left refl le) (refl, refl)
          ]
    ]
