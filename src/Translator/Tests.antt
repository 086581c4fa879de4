-- ===== src/Translator/Tests.antt =====
-- Tests of the arguments that the translator pushes.
use ndse_core.Base.{◌≡◌, refl, some, none, [], ◌∷◌}
use ndse_core.Disassembler.{Context, Inst, Condition, Shift, AddressingMode, ExtendMode}
use ndse_core.Printer.Directive.{directive_of, operand_of}
use ndse_core.Printer.Formats.{strings}
use ndse_core.Translator.{push_args, push_loop, push_percent, push_directive, push_register}

-- MOVS R1,R2,ROR#4
abbrev moved : Context
moved = record {
  instruction = Inst.mov_r;
  cond = Condition.al;
  shift = Shift.ror;
  addressing_mode = AddressingMode.ia;
  extend_mode = ExtendMode.invalid;
  flags = 1;
  imm = 4;
  rd = 1;
  rn = 0;
  rm = 2;
  rs = 0;
  cp_num = 0;
  cp_op1 = 0;
  cp_op2 = 0;
  op = 0xE1B01262;
  addr = 0;
}

moved_args : push_args moved ≡ some (1 ∷ 4 ∷ 3 ∷ 2 ∷ 1 ∷ [])
unfolding push_args push_loop push_percent push_directive push_register directive_of operand_of
    strings
moved_args = refl

-- The format of UMLAL has no end behind its last `%R`.
umlal_args : push_args (record moved { instruction = Inst.umlal }) ≡ none
unfolding push_args push_loop push_percent push_directive push_register directive_of operand_of
    strings
umlal_args = refl
