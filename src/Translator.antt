-- ===== src/Translator.antt =====
-- What the translator passes to the functions of the interpreter core: the loop over the format of
-- the instruction in `compiler::compile_instruction` of Core/Compiler.cpp (`HLE_CORE`).
pub mod Functions
pub mod Call
mod Tests
use ndse_core.Base.{ℕ, zero, suc, ◌+◌, ◌==◌, Option, none, some, List, [], ◌∷◌, get_or, length}
use ndse_core.Base.{if◌then◌else◌, ltb}
use ndse_core.Disassembler.{Context, Shift, AddressingMode, ExtendMode}
use ndse_core.Interpreter.Execute.{cpsr_masks}
use ndse_core.Printer.Directive.{
  Directive, directive_of, Operand, operand_of, CoprocField, coproc_field_of,
}
use ndse_core.Printer.Formats.{codes, strings}

-- The numbers of the enumerations.
abbrev pub shift_number : Shift → ℕ
shift_number Shift.lsl = 0
shift_number Shift.lsr = 1
shift_number Shift.asr = 2
shift_number Shift.ror = 3
shift_number Shift.rrx = 4

abbrev pub addressing_number : AddressingMode → ℕ
addressing_number AddressingMode.da = 0
addressing_number AddressingMode.ia = 1
addressing_number AddressingMode.db = 2
addressing_number AddressingMode.ib = 3

abbrev pub extend_number : ExtendMode → ℕ
extend_number ExtendMode.invalid = 0
extend_number ExtendMode.h = 1
extend_number ExtendMode.sb = 2
extend_number ExtendMode.sh = 3

-- What is left of the format, and the stack, the value pushed last first. `none` is a read past the
-- end of the format or of `cpsr_masks`.
abbrev pub Pushed : Type 0
Pushed = Option (List ℕ × List ℕ)

abbrev pub push : List ℕ → ℕ → List ℕ → Pushed
push p x stack = some (p, x ∷ stack)

unfoldable pub push_register : List ℕ → Context → List ℕ → Pushed
push_register [] c stack = none
push_register (x ∷ p) c stack = elim (operand_of x) [
  | none ↦ some (p, stack)
  | some Operand.rd ↦ push p c.rd stack
  | some Operand.rn ↦ push p c.rn stack
  | some Operand.rm ↦ push p c.rm stack
  | some Operand.rs ↦ push p c.rs stack
  | some Operand.reg_list ↦ push p c.imm stack
]

unfoldable pub push_coproc : List ℕ → Context → List ℕ → Pushed
push_coproc [] c stack = none
push_coproc (x ∷ p) c stack = elim (coproc_field_of x) [
  | none ↦ some (p, stack)
  | some CoprocField.number ↦ push p c.cp_num stack
  | some CoprocField.op1 ↦ push p c.cp_op1 stack
  | some CoprocField.op2 ↦ push p c.cp_op2 stack
  | some CoprocField.register ↦ push_register p c stack
]

-- The switch behind a `%`.
unfoldable pub push_directive : Directive → List ℕ → Context → List ℕ → Pushed
push_directive Directive.status_mask p c stack =
    if ltb c.rn 16 then push p (get_or cpsr_masks c.rn 0) stack else none
push_directive Directive.shift p c stack = push p (shift_number c.shift) stack
push_directive Directive.register p c stack = push_register p c stack
push_directive Directive.addressing p c stack = push p (addressing_number c.addressing_mode) stack
push_directive Directive.extend p c stack = push p (extend_number c.extend_mode) stack
push_directive Directive.hex p c stack = push p c.imm stack
push_directive Directive.address p c stack = push p c.imm stack
push_directive Directive.coproc p c stack = push_coproc p c stack
push_directive _ p c stack = some (p, stack)

unfoldable pub push_percent : List ℕ → Context → List ℕ → Pushed
push_percent [] c stack = none
push_percent (x ∷ p) c stack = elim (directive_of x) [
  | none ↦ some (p, stack)
  | some d ↦ push_directive d p c stack
]

-- The loop `while (*p)`; a round takes a character at least.
unfoldable pub push_loop : ℕ → List ℕ → Context → List ℕ → Option (List ℕ)
push_loop fuel [] c stack = some stack
push_loop zero (x ∷ p) c stack = none
push_loop (suc fuel) (x ∷ p) c stack =
    elim (if x == b'%' then push_percent p c stack else some (p, stack)) [
      | none ↦ none
      | some next ↦ push_loop fuel next.0 c next.1
    ]

-- The arguments of the function, the first one first: the stack with the flags on top.
unfoldable pub push_args : Context → Option (List ℕ)
push_args c =
    let dasm = codes (strings c.instruction) in
    elim (push_loop (length dasm) dasm c []) [ none ↦ none | some stack ↦ some (c.flags ∷ stack) ]
