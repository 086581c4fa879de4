-- ===== src/Printer/Print.antt =====
-- `disassembler::get_str` of Core/Disassembler.h: one pass over the format, character by character.
-- The result is `none` where the source reads past the end of a format or of a table.
use ndse_core.Base.{ℕ, zero, suc, ◌/◌, ◌%◌, ◌==◌, Option, none, some, List, [], ◌∷◌}
use ndse_core.Base.{if◌then◌else◌, bit, length}
use ndse_core.Disassembler.{Context}
use ndse_core.Printer.{
  condition_text, shift_text, addressing_text, extend_text, mask_texts, cat, cat_entry, cat_i16,
  step_back, cat_hex8, cat_hex,
}
use ndse_core.Printer.Directive.{
  Directive, directive_of, Operand, operand_of, CoprocField, coproc_field_of,
}
use ndse_core.Printer.Formats.{codes, strings}

-- What is left of the format, and the buffer.
abbrev pub Place : Type 0
Place = List ℕ × List ℕ

-- The place after a write that can fail.
abbrev pub at : List ℕ → Option (List ℕ) → Option Place
at p none = none
at p (some out) = some (p, out)

-- The loop of `%RL` over the registers, `n` of them from `i` on.
unfoldable pub list_regs : (n i tmp : ℕ) → List ℕ → Option (List ℕ)
list_regs zero i tmp out = some out
list_regs (suc n) i tmp out = elim (if tmp % 2 == 1 then cat_i16 i (b'r' ∷ out) else some out) [
  | none ↦ none
  | some out' ↦ list_regs n (suc i) (tmp / 2) (if tmp % 2 == 1 then b',' ∷ out' else out')
]

abbrev pub then_back : Option (List ℕ) → Option (List ℕ)
then_back none = none
then_back (some out) = step_back out

-- The case `L`: it takes the prefix back, and the comma after the last register.
unfoldable pub print_list : ℕ → List ℕ → Option (List ℕ)
print_list imm [] = none
print_list imm (_ ∷ out) = if imm == 0 then some out else then_back (list_regs 16 0 imm out)

-- The cases at `DecodeReg`.
unfoldable pub print_operand : Operand → Context → List ℕ → Option (List ℕ)
print_operand Operand.rd c out = cat_i16 c.rd out
print_operand Operand.rn c out = cat_i16 c.rn out
print_operand Operand.rm c out = cat_i16 c.rm out
print_operand Operand.rs c out = cat_i16 c.rs out
print_operand Operand.reg_list c out = print_list c.imm out

unfoldable pub decode_reg_text : List ℕ → Context → List ℕ → Option Place
decode_reg_text [] c out = none
decode_reg_text (x ∷ p) c out = elim (operand_of x) [
  | none ↦ some (p, out)
  | some o ↦ at p (print_operand o c out)
]

-- The case `C`.
unfoldable pub print_coproc : List ℕ → Context → List ℕ → Option Place
print_coproc [] c out = none
print_coproc (x ∷ p) c out = elim (coproc_field_of x) [
  | none ↦ some (p, out)
  | some CoprocField.number ↦ at p (cat_i16 c.cp_num (b'p' ∷ out))
  | some CoprocField.op1 ↦ at p (cat_i16 c.cp_op1 out)
  | some CoprocField.op2 ↦ at p (cat_i16 c.cp_op2 out)
  | some CoprocField.register ↦ decode_reg_text p c (b'c' ∷ out)
]

-- The switch behind a `%`; `p` starts after the directive.
unfoldable pub print_directive : Directive → List ℕ → Context → List ℕ → Option Place
print_directive Directive.caret p c out = some (p, if bit c.flags 0 then b'^' ∷ out else out)
print_directive Directive.minus p c out = some (p, if bit c.flags 1 then out else b'-' ∷ out)
print_directive Directive.question p c out = some (p, cat (codes "???") out)
print_directive Directive.condition p c out = some (p, cat (condition_text c.cond) out)
print_directive Directive.s_flag p c out = some (p, if bit c.flags 0 then b's' ∷ out else out)
print_directive Directive.status_mask p c out = at p (cat_entry mask_texts c.rn out)
print_directive Directive.shift p c out = some (p, cat (shift_text c.shift) out)
print_directive Directive.register p c out = decode_reg_text p c (b'r' ∷ out)
print_directive Directive.addressing p c out = some (p, cat (addressing_text c.addressing_mode) out)
print_directive Directive.extend p c out = some (p, cat (extend_text c.extend_mode) out)
print_directive Directive.hex p c out = some (p, cat_hex c.imm out)
print_directive Directive.address p c out = some (p, cat_hex8 c.imm out)
print_directive Directive.coproc p c out = print_coproc p c out

unfoldable pub print_percent : List ℕ → Context → List ℕ → Option Place
print_percent [] c out = none
print_percent (x ∷ p) c out = elim (directive_of x) [
  | none ↦ some (p, x ∷ out)
  | some d ↦ print_directive d p c out
]

-- One round of `while (*p)`.
unfoldable pub print_round : ℕ → List ℕ → Context → List ℕ → Option Place
print_round x p c out = if x == b'%' then print_percent p c out else some (p, x ∷ out)

-- A round takes a character at least, so the length of the format is enough fuel.
unfoldable pub print_loop : ℕ → List ℕ → Context → List ℕ → Option (List ℕ)
print_loop fuel [] c out = some out
print_loop zero (x ∷ p) c out = none
print_loop (suc fuel) (x ∷ p) c out = elim (print_round x p c out) [
  | none ↦ none
  | some next ↦ print_loop fuel next.0 c next.1
]

-- The text in the order it is read.
unfoldable pub get_str : Context → Option (List ℕ)
get_str c =
    let fmt = codes (strings c.instruction) in
    elim (print_loop (length fmt) fmt c []) [ none ↦ none | some out ↦ some (cat out []) ]
