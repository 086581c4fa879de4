-- ===== src/Printer/Directive.antt =====
-- The characters behind a `%` that `disassembler::get_str` (Core/Disassembler.h) and
-- `compiler::compile_instruction` (Core/Compiler.cpp) tell apart: the labels of their switches.
use ndse_core.Base.{ℕ, Option, none, some, [], ◌∷◌, switch}

-- The character behind `%`.
pub data Directive : Type 0 where
  caret minus question condition s_flag status_mask shift register : Directive
  addressing extend hex address coproc : Directive

unfoldable pub directive_of : ℕ → Option Directive
directive_of x =
    switch x
      ((b'^', some Directive.caret)
        ∷ (b'-', some Directive.minus)
        ∷ (b'?', some Directive.question)
        ∷ (b'c', some Directive.condition)
        ∷ (b's', some Directive.s_flag)
        ∷ (b'F', some Directive.status_mask)
        ∷ (b'S', some Directive.shift)
        ∷ (b'R', some Directive.register)
        ∷ (b'M', some Directive.addressing)
        ∷ (b'E', some Directive.extend)
        ∷ (b'I', some Directive.hex)
        ∷ (b'A', some Directive.address)
        ∷ (b'C', some Directive.coproc)
        ∷ [])
      none

-- The character behind `%R`, at the label `DecodeReg`.
pub data Operand : Type 0 where
  rd rn rm rs reg_list : Operand

unfoldable pub operand_of : ℕ → Option Operand
operand_of x =
    switch x
      ((b'd', some Operand.rd)
        ∷ (b'n', some Operand.rn)
        ∷ (b'm', some Operand.rm)
        ∷ (b's', some Operand.rs)
        ∷ (b'L', some Operand.reg_list)
        ∷ [])
      none

-- The character behind `%C`.
pub data CoprocField : Type 0 where
  number op1 op2 register : CoprocField

unfoldable pub coproc_field_of : ℕ → Option CoprocField
coproc_field_of x =
    switch x
      ((b'p', some CoprocField.number)
        ∷ (b'1', some CoprocField.op1)
        ∷ (b'2', some CoprocField.op2)
        ∷ (b'R', some CoprocField.register)
        ∷ [])
      none
