-- ===== src/Printer/Pieces.antt =====
-- What the writes of the printer (Core/Disassembler.h) add to its buffer.
use ndse_core.Base.{ℕ, zero, suc, ◌+◌, ◌/◌, ◌%◌, ◌<◌, ◌≤◌, ◌^◌, ◌==◌, ◌≡◌, ◌≢◌, ◌⊎◌, refl, sym, ap}
use ndse_core.Base.{◌∙◌, arith, Bool, true, false, none, some, List, [], ◌∷◌}
use ndse_core.Base.{◌++◌, inl, inr, if-else, if◌then◌else◌, get_or, length}
use native.Mathlib.Nat.{pow-suc}
use ndse_core.Printer.{
  ints, nibbles, cat, cat_entry, cat_i16, cat_nibble, cat_hex8, cat_hex_fuel, step_back,
}
use ndse_core.Printer.Print.{list_regs, then_back, print_list}
use ndse_core.Printer.Tokens.{reg_names, separated, hex_digits, hex8_digits}

pub cat-append : (xs ys out : List ℕ) → cat (xs ++ ys) out ≡ cat ys (cat xs out)
unfolding cat
cat-append [] ys out = refl
cat-append (x ∷ xs) ys out = cat-append xs ys (x ∷ out)

-- Turning the buffer round gives the text.
pub cat-cat : (xs out rest : List ℕ) → cat (cat xs out) rest ≡ cat out (xs ++ rest)
unfolding cat
cat-cat [] out rest = refl
cat-cat (x ∷ xs) out rest = cat-cat xs (x ∷ out) rest

pub cat_entry-in :
    (table : List (List ℕ)) (i : ℕ) (out : List ℕ)
    → i < 16
    → cat_entry table i out ≡ some (cat (get_or table i []) out)
unfolding cat_entry
cat_entry-in table i out h = ground arith

pub cat_hex-digits :
    (n value : ℕ) (out : List ℕ) → cat_hex_fuel n value out ≡ cat (hex_digits n value) out
unfolding cat_hex_fuel cat_nibble hex_digits cat
cat_hex-digits zero value out = refl
cat_hex-digits (suc n) value out =
    ap (cat_nibble value) (chosen (cat_hex-digits n (value / 16) out) (value / 16 == 0))
    ∙ sym (
        cat-append (if value / 16 == 0 then [] else hex_digits n (value / 16))
          (get_or nibbles (value % 16) 0 ∷ []) out)
  where
    chosen :
        cat_hex_fuel n (value / 16) out ≡ cat (hex_digits n (value / 16)) out
        → (b : Bool)
        → (if b then out else cat_hex_fuel n (value / 16) out)
          ≡ cat (if b then [] else hex_digits n (value / 16)) out
    chosen high true = refl
    chosen high false = high

append_nil : (xs : List ℕ) → xs ++ [] ≡ xs
append_nil [] = refl
append_nil (x ∷ xs) = ap (λ rest. x ∷ rest) (append_nil xs)

pub cat-nil : (xs : List ℕ) → cat [] (xs ++ []) ≡ xs
unfolding cat
cat-nil xs = append_nil xs

pub append_assoc : (xs ys zs : List ℕ) → (xs ++ ys) ++ zs ≡ xs ++ (ys ++ zs)
append_assoc [] ys zs = refl
append_assoc (x ∷ xs) ys zs = ap (λ rest. x ∷ rest) (append_assoc xs ys zs)

pub cat_hex8-digits : (value : ℕ) (out : List ℕ) → cat_hex8 value out ≡ cat (hex8_digits value) out
unfolding cat_hex8 cat_nibble cat
cat_hex8-digits value out = refl

-- Each name with a comma behind it.
abbrev closed : List (List ℕ) → List ℕ
closed [] = []
closed (x ∷ names) = x ++ b',' ∷ closed names

list_regs-names :
    (n i tmp : ℕ) (out : List ℕ)
    → i + n ≤ 16
    → list_regs n i tmp out ≡ some (cat (closed (reg_names n i tmp)) out)
unfolding list_regs reg_names cat
list_regs-names zero i tmp out h = refl
list_regs-names (suc n) i tmp out h =
    chosen (λ out'. list_regs-names n (suc i) (tmp / 2) out' (omega arith)) (tmp % 2 == 1)
  where
    names : List (List ℕ)
    names = reg_names n (suc i) (tmp / 2)

    chosen :
        ((out' : List ℕ) → list_regs n (suc i) (tmp / 2) out' ≡ some (cat (closed names) out'))
        → (b : Bool)
        → (elim (if b then cat_i16 i (b'r' ∷ out) else some out) [
          | none ↦ none
          | some out' ↦ list_regs n (suc i) (tmp / 2) (if b then b',' ∷ out' else out')
        ])
          ≡ some (cat (closed (if b then (b'r' ∷ get_or ints i []) ∷ names else names)) out)
    chosen below false = below out
    chosen below true = rw (cat_entry-in ints i (b'r' ∷ out) (omega arith)) (
        below (b',' ∷ cat (get_or ints i []) (b'r' ∷ out))
        ∙ ap some (sym (cat-append (get_or ints i []) (b',' ∷ closed names) (b'r' ∷ out))))

closed-separated :
    (x : List ℕ) (names : List (List ℕ)) → closed (x ∷ names) ≡ separated (x ∷ names) ++ b',' ∷ []
closed-separated x [] = refl
closed-separated x (y ∷ names) =
    ap (λ rest. x ++ b',' ∷ rest) (closed-separated y names)
    ∙ sym (append_assoc x (b',' ∷ separated (y ∷ names)) (b',' ∷ []))

none_chosen :
    (b : Bool) (x : List ℕ) (rest : List (List ℕ))
    → (if b then x ∷ rest else rest) ≡ []
    → (b ≡ false) × (rest ≡ [])
none_chosen true x rest e = let size = ap length e in absurd (omega (arith, size))
none_chosen false x rest e = (refl, e)

reg_names-none : (n i tmp : ℕ) → tmp < 2 ^ n → reg_names n i tmp ≡ [] → tmp ≡ 0
unfolding reg_names
reg_names-none zero i tmp h e = omega arith
reg_names-none (suc n) i tmp h e =
    let low =
      none_chosen (tmp % 2 == 1) (b'r' ∷ get_or ints i []) (reg_names n (suc i) (tmp / 2)) e in
    let even : tmp % 2 ≢ 1 = ground (arith, low.0) in
    let high = reg_names-none n (suc i) (tmp / 2) (omega (arith, pow-suc 2 n)) low.1 in
    omega (arith, even, high)

back_off : (out : List ℕ) → then_back (some (cat (b',' ∷ []) out)) ≡ some out
unfolding step_back cat
back_off out = refl

no_registers : (out : List ℕ) → some out ≡ some (cat (separated (reg_names 16 0 0)) out)
unfolding reg_names cat
no_registers out = refl

-- `%RL` writes the names of the registers, with commas between them and none at the end.
pub print_list-separated :
    (imm x : ℕ) (out : List ℕ)
    → imm < 2 ^ 16
    → print_list imm (x ∷ out) ≡ some (cat (separated (reg_names 16 0 imm)) out)
unfolding print_list
print_list-separated imm x out h =
    let cases : (imm ≡ 0) ⊎ (imm ≢ 0) = ground arith in
    elim cases [
      | inl e ↦ rw e (no_registers out)
      | inr n ↦
          if-else imm (some out) (then_back (list_regs 16 0 imm out)) n
          ∙ ap then_back (list_regs-names 16 0 imm out (omega arith))
          ∙ without_comma (reg_names 16 0 imm) (λ e. n (reg_names-none 16 0 imm h e))
    ]
  where
    without_comma :
        (names : List (List ℕ))
        → names ≢ []
        → then_back (some (cat (closed names) out)) ≡ some (cat (separated names) out)
    without_comma [] ne = absurd (ne refl)
    without_comma (y ∷ names) ne =
        ap (λ t. then_back (some t))
          (ap (λ t. cat t out) (closed-separated y names)
            ∙ cat-append (separated (y ∷ names)) (b',' ∷ []) out)
        ∙ back_off (cat (separated (y ∷ names)) out)
