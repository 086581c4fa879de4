-- ===== src/Interpreter/Execute.antt =====
-- The table of functions of Core/HLCore.cpp and the arguments that an instruction passes.
use ndse_core.Base.{ℕ, List, [], ◌∷◌, get_or}
use ndse_core.Disassembler.{Inst, Context}
use ndse_core.Memory.{Handlers}
use ndse_core.Interpreter.{Core, undefined}
use ndse_core.Interpreter

abbrev pub cpsr_masks : List ℕ
cpsr_masks =
    0x00000000 ∷ 0x000000FF ∷ 0x0000FF00 ∷ 0x0000FFFF ∷ 0x00FF0000 ∷ 0x00FF00FF ∷ 0x00FFFF00
    ∷ 0x00FFFFFF ∷ 0xFF000000 ∷ 0xFF0000FF ∷ 0xFF00FF00 ∷ 0xFF00FFFF ∷ 0xFFFF0000 ∷ 0xFFFF00FF
    ∷ 0xFFFFFF00 ∷ 0xFFFFFFFF ∷ []

-- The functions that do more than stop.
pub data Function : Type 0 where
  stub : Function
  str_ip ldr_ip str_ipw ldr_ipw strb_ip ldrb_ip strx_ip ldrx_ip : Function
  add_i orr_i mov_i mov_r msr_cpsr_i msr_cpsr_r mcr : Function

-- The table `funcs`. A function not listed is a stub.
unfoldable pub funcs : Inst → Function
funcs Inst.str_ip = Function.str_ip
funcs Inst.ldr_ip = Function.ldr_ip
funcs Inst.str_ipw = Function.str_ipw
funcs Inst.ldr_ipw = Function.ldr_ipw
funcs Inst.strb_ip = Function.strb_ip
funcs Inst.ldrb_ip = Function.ldrb_ip
funcs Inst.strx_ip = Function.strx_ip
funcs Inst.ldrx_ip = Function.ldrx_ip
funcs Inst.add_i = Function.add_i
funcs Inst.orr_i = Function.orr_i
funcs Inst.mov_i = Function.mov_i
funcs Inst.mov_r = Function.mov_r
funcs Inst.msr_cpsr_i = Function.msr_cpsr_i
funcs Inst.msr_cpsr_r = Function.msr_cpsr_r
funcs Inst.mcr = Function.mcr
funcs _ = Function.stub

module _ {D : Type 0} (h : Handlers D) where
  -- The call of a function on what the translator pushes for its instruction: the fields that the text
  -- in `INST::strings` names, the last one first, behind the flags.
  unfoldable pub call : Function → Context → Core D → Core D
  call Function.str_ip i c = Interpreter.str_ip h i.flags i.imm i.rn i.rd c
  call Function.ldr_ip i c = Interpreter.ldr_ip h i.flags i.imm i.rn i.rd c
  call Function.str_ipw i c = Interpreter.str_ipw h i.flags i.imm i.rn i.rd c
  call Function.ldr_ipw i c = Interpreter.ldr_ipw h i.flags i.imm i.rn i.rd c
  call Function.strb_ip i c = Interpreter.strb_ip h i.flags i.imm i.rn i.rd c
  call Function.ldrb_ip i c = Interpreter.ldrb_ip h i.flags i.imm i.rn i.rd c
  call Function.strx_ip i c = Interpreter.strx_ip h i.flags i.imm i.rn i.rd i.extend_mode c
  call Function.ldrx_ip i c = Interpreter.ldrx_ip h i.flags i.imm i.rn i.rd i.extend_mode c
  call Function.add_i i c = Interpreter.add_i i.flags i.imm i.rn i.rd c
  call Function.orr_i i c = Interpreter.orr_i i.flags i.imm i.rn i.rd c
  call Function.mov_i i c = Interpreter.mov_i i.flags i.imm i.rd c
  call Function.mov_r i c = Interpreter.mov_r i.flags i.imm i.shift i.rm i.rd c
  call Function.msr_cpsr_i i c = Interpreter.msr_cpsr_i i.flags i.imm (get_or cpsr_masks i.rn 0) c
  call Function.msr_cpsr_r i c = Interpreter.msr_cpsr_r i.flags i.rm (get_or cpsr_masks i.rn 0) c
  call Function.mcr i c = Interpreter.mcr i.flags i.cp_op2 i.rm i.rn i.rd i.cp_op1 i.cp_num c
  call Function.stub i c = undefined c

  -- The call that `compile_instruction` emits where `HLE_CORE` is defined, as one function. The build
  -- does not define it (`#undef HLE_CORE` in Core/Compiler.h), and the stub that checks the condition
  -- in front of the call is left out.
  unfoldable pub execute : Context → Core D → Core D
  execute i c = call (funcs i.instruction) i c
