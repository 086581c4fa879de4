-- ===== src/Interpreter/Carry.antt =====
-- Carries of the barrel shifter of Core/HLCore.cpp, and what repeated shifts by one settle to.
use native.Mathlib.Nat.{div-add-mod, mod-lt}
use ndse_core.Base.{ℕ, zero, suc, ◌+◌, ◌-◌, ◌*◌, ◌/◌, ◌%◌, ◌^◌, ◌<◌, ◌≤◌, ◌≡◌, ◌⊎◌, arith}
use ndse_core.Base.{ap, sym, ◌∙◌, ◌==◌, inl, inr}
use ndse_core.Base.Pow.{pow_pos}
use ndse_core.Disassembler.{Shift}
use ndse_core.Interpreter.Shifter.{single_bit}
use ndse_core.Interpreter.Steps.{shift_once, shift_each}

-- The same word, and a carry that is set in both or in neither.
abbrev pub Agrees : ℕ × ℕ → ℕ × ℕ → Type 0
Agrees a b = ((a.0 == 0) ≡ (b.0 == 0)) × (a.1 ≡ b.1)

-- A word that a shift by one does not change stays.
settled :
    (op : Shift) (n x w : ℕ)
    → (shift_each op n x).1 ≡ w
    → (shift_once op w).1 ≡ w
    → (j : ℕ) → (shift_each op (j + n) x).1 ≡ w
settled op n x w e f zero = ap (λ k. (shift_each op k x).1) (omega arith) ∙ e
settled op n x w e f (suc j) =
    ap (λ k. (shift_each op k x).1) {y = suc (j + n)} (omega arith)
    ∙ ap (λ v. (shift_once op v).1) (settled op n x w e f j)
    ∙ f

-- From step `n` on, the shift by one does the same thing to the same word.
pub settled_at :
    (op : Shift) (n k x w : ℕ)
    → (shift_each op n x).1 ≡ w
    → (shift_once op w).1 ≡ w
    → n ≤ k
    → shift_each op (suc k) x ≡ shift_once op w
settled_at op n k x w e f le =
    ap (λ i. shift_once op (shift_each op i x).1) {y = k - n + n} (omega arith)
    ∙ ap (shift_once op) (settled op n x w e f (k - n))

flag_lem : (a q : ℕ) → 0 < q → (a % 2 * q == 0) ≡ (a % 2 == 0)
flag_lem a q h =
    let two : (a % 2 ≡ 0) ⊎ (a % 2 ≡ 1) = omega arith in
    elim two [ inl e ↦ rw e (ground arith) | inr e ↦ rw e (ground arith) ]

pub single_bit-zero : (x k : ℕ) → (single_bit x k == 0) ≡ (x / 2 ^ k % 2 == 0)
single_bit-zero x k = flag_lem (x / 2 ^ k) (2 ^ k) (pow_pos k)

pub top_bit : (x p q : ℕ) → 0 < p → 0 < q → p * q ≡ 2 ^ 31 → x * p % 2 ^ 32 / 2 ^ 31 ≡ x / q % 2
top_bit x p q pos h e =
    let a = x / q in
    let r = x % q in
    let split = ap (λ t. t * p) (sym (div-add-mod x q)) ∙ expand a r in
    let whole = ap (λ t. t * a + r * p) e in
    let small = below r (mod-lt x h) in omega (arith, split, whole, small, e)
  where
    expand : (a r : ℕ) → (q * a + r) * p ≡ p * q * a + r * p
    expand a r = omega arith

    below : (r : ℕ) → r < q → r * p + p ≤ p * q
    below r lt = grind arith

pub agree : {a a' b b' : ℕ × ℕ} → a ≡ a' → b ≡ b' → Agrees a' b' → Agrees a b
agree e f v = rw (e, f) v
