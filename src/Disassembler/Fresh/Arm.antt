-- ===== src/Disassembler/Fresh/Arm.antt =====
-- The other groups of the ARM decoder, and the whole of it.
use ndse_core.Base.{ℕ, ◌≡◌, ap, ◌∙◌, sym, refl, field, arith, Bool, true, false, bit, if◌then◌else◌}
use ndse_core.Disassembler.{
  Context, Inst, inst_ud, flag, u_bit, ExtendMode, extend_mode_of, decode_reg,
}
use ndse_core.Disassembler.Fresh.Data.{Agree, data_reg_shift-same, decode_000_imms-same}
use ndse_core.Disassembler.Fresh.Data.{decode_001_data_imm-same}
use ndse_core.Disassembler.Arm.{decode_000_data_reg, decode_instruction}
use ndse_core.Disassembler.Arm.Shifter.{decode_condition, decode_shift, decode_addressingmode2}
use ndse_core.Disassembler.Arm.Shifter.{decode_simm24}
use ndse_core.Disassembler.Arm.Multiply.{inst_ldrd, decode_00000_mula, decode_00001_mulal}
use ndse_core.Disassembler.Arm.Multiply.{decode_00010_swap, decode_000_mulswap, extra_load_store}
use ndse_core.Disassembler.Arm.Multiply.{by_extend_mode, decode_000_mul_extraloadstore}
use ndse_core.Disassembler.Arm.Multiply.{decode_000_regs, extra_offset, extra_mode}
use ndse_core.Disassembler.Arm.Memory.{
  decode_010_loadstore_imm, loadstore_reg_switch, decode_011_loadstore_reg,
}
use ndse_core.Disassembler.Arm.Memory.{decode_100_loadstoremultiple, decode_101_branch}
use ndse_core.Disassembler.Arm.Memory.{decode_110, decode_swi, decode_coproc, decode_111}
use ndse_core.Disassembler.Arm.Memory.{decode_instruction_nv}
use ndse_core.Disassembler.Decode.{decode_arm}

inst_ldrd-same :
    (c d : Context) → c.op ≡ d.op → (inst_ldrd c).instruction ≡ (inst_ldrd d).instruction
unfolding inst_ldrd
inst_ldrd-same c d e = ground arith

decode_00000_mula-same :
    (c d : Context)
    → c.op ≡ d.op
    → (decode_00000_mula c).instruction ≡ (decode_00000_mula d).instruction
unfolding decode_00000_mula
decode_00000_mula-same c d e = ground arith

decode_00001_mulal-same :
    (c d : Context)
    → c.op ≡ d.op
    → (decode_00001_mulal c).instruction ≡ (decode_00001_mulal d).instruction
unfolding decode_00001_mulal
decode_00001_mulal-same c d e = ground arith

decode_00010_swap-same :
    (c d : Context)
    → c.op ≡ d.op
    → (decode_00010_swap c).instruction ≡ (decode_00010_swap d).instruction
unfolding decode_00010_swap
decode_00010_swap-same c d e = ground arith

decode_000_mulswap-same :
    (c d : Context)
    → c.op ≡ d.op
    → (decode_000_mulswap c).instruction ≡ (decode_000_mulswap d).instruction
unfolding decode_000_mulswap
decode_000_mulswap-same c d e = ground (
  arith,
  decode_00000_mula-same c d e,
  decode_00001_mulal-same c d e,
  decode_00010_swap-same c d e,
)

extra_load_store-same :
    (c d : Context)
    → c.op ≡ d.op
    → (extra_load_store c).instruction ≡ (extra_load_store d).instruction
unfolding extra_load_store
extra_load_store-same c d e = ground arith

by_extend_mode-same :
    (mode : ExtendMode) (c d : Context)
    → c.op ≡ d.op
    → (by_extend_mode mode c).instruction ≡ (by_extend_mode mode d).instruction
unfolding by_extend_mode
by_extend_mode-same ExtendMode.invalid c d e = decode_000_mulswap-same c d e
by_extend_mode-same ExtendMode.sb c d e =
    ground (arith, inst_ldrd-same c d e, extra_load_store-same c d e)
by_extend_mode-same ExtendMode.h c d e = extra_load_store-same c d e
by_extend_mode-same ExtendMode.sh c d e = extra_load_store-same c d e

op-extra_offset : (c : Context) → (extra_offset c).op ≡ c.op
unfolding extra_offset
op-extra_offset c = ground arith

decode_000_mul_extraloadstore-same :
    (c d : Context)
    → c.op ≡ d.op
    → (decode_000_mul_extraloadstore c).instruction ≡ (decode_000_mul_extraloadstore d).instruction
unfolding decode_000_mul_extraloadstore
decode_000_mul_extraloadstore-same c d e =
    let at = λ (c : Context). extra_offset c in
    by_extend_mode-same (extra_mode c) (at c) (at d)
      (op-extra_offset c ∙ e ∙ sym (op-extra_offset d))
    ∙ ap (λ o. (by_extend_mode (extend_mode_of (field o 5 2)) (at d)).instruction) e

decode_010_loadstore_imm-same :
    (c d : Context)
    → c.op ≡ d.op
    → (decode_010_loadstore_imm c).instruction ≡ (decode_010_loadstore_imm d).instruction
unfolding decode_010_loadstore_imm decode_addressingmode2
decode_010_loadstore_imm-same c d e = ground arith

loadstore_reg_switch-same :
    (c d : Context)
    → c.op ≡ d.op
    → (loadstore_reg_switch c).instruction ≡ (loadstore_reg_switch d).instruction
unfolding loadstore_reg_switch
loadstore_reg_switch-same c d e = ground arith

-- The operands of a transfer with a register offset.
abbrev register_operands : Context → Context
register_operands c = decode_shift (record (if bit c.op 23 then flag u_bit c else c) {
  rn = decode_reg 16 c;
  rd = decode_reg 12 c;
  rm = decode_reg 0 c;
})

register_operands-op : (c : Context) → (register_operands c).op ≡ c.op
unfolding decode_shift
register_operands-op c = ground arith

if-instruction :
    (b : Bool) (c d : Context)
    → (if b then c else d).instruction ≡ (if b then c.instruction else d.instruction)
if-instruction true c d = refl
if-instruction false c d = refl

decode_011_loadstore_reg-same :
    (c d : Context)
    → c.op ≡ d.op
    → (decode_011_loadstore_reg c).instruction ≡ (decode_011_loadstore_reg d).instruction
unfolding decode_011_loadstore_reg
decode_011_loadstore_reg-same c d e =
    let h = register_operands-op c ∙ e ∙ sym (register_operands-op d) in
    let r = loadstore_reg_switch-same (register_operands c) (register_operands d) h in
    if-instruction (bit c.op 4) (inst_ud c) (loadstore_reg_switch (register_operands c))
    ∙ (λ i. if bit (e i) 4 then Inst.ud else r i)
    ∙ sym (if-instruction (bit d.op 4) (inst_ud d) (loadstore_reg_switch (register_operands d)))

decode_100_loadstoremultiple-same :
    (c d : Context)
    → c.op ≡ d.op
    → (decode_100_loadstoremultiple c).instruction ≡ (decode_100_loadstoremultiple d).instruction
unfolding decode_100_loadstoremultiple
decode_100_loadstoremultiple-same c d e = ground arith

decode_101_branch-same :
    (c d : Context)
    → c.op ≡ d.op
    → (decode_101_branch c).instruction ≡ (decode_101_branch d).instruction
unfolding decode_101_branch decode_simm24
decode_101_branch-same c d e = ground arith

decode_111-same :
    (c d : Context) → c.op ≡ d.op → (decode_111 c).instruction ≡ (decode_111 d).instruction
unfolding decode_111 decode_swi decode_coproc
decode_111-same c d e = ground arith

decode_instruction_nv-same :
    (c d : Context)
    → c.op ≡ d.op
    → (decode_instruction_nv c).instruction ≡ (decode_instruction_nv d).instruction
unfolding decode_instruction_nv decode_addressingmode2
decode_instruction_nv-same c d e = ground arith

decode_000_regs-same :
    {c d : Context} → Agree c d → (decode_000_regs c).instruction ≡ (decode_000_regs d).instruction
unfolding decode_000_regs
decode_000_regs-same {c} {d} a =
    ground (arith, decode_000_mul_extraloadstore-same c d a.same_op, data_reg_shift-same a)

decode_000_data_reg-same :
    (c d : Context)
    → c.op ≡ d.op
    → c.cond ≡ d.cond
    → (decode_000_data_reg c).instruction ≡ (decode_000_data_reg d).instruction
unfolding decode_000_data_reg
decode_000_data_reg-same c d e k =
    let c' : Context = record c {
      rn = decode_reg 16 c;
      rd = decode_reg 12 c;
      rm = decode_reg 0 c;
    } in
    let d' : Context = record d {
      rn = decode_reg 16 d;
      rd = decode_reg 12 d;
      rm = decode_reg 0 d;
    } in
    let a : Agree c' d' = ground arith in
    ground (arith, decode_000_regs-same a, decode_000_imms-same a)

decode_instruction-same :
    (c d : Context)
    → c.op ≡ d.op
    → c.cond ≡ d.cond
    → (decode_instruction c).instruction ≡ (decode_instruction d).instruction
unfolding decode_instruction decode_110
decode_instruction-same c d e k = ground (
  arith,
  decode_instruction_nv-same c d e,
  decode_000_data_reg-same c d e k,
  decode_001_data_imm-same c d e,
  decode_010_loadstore_imm-same c d e,
  decode_011_loadstore_reg-same c d e,
  decode_100_loadstoremultiple-same c d e,
  decode_101_branch-same c d e,
  decode_111-same c d e,
)

-- The instruction that `decode<IS_ARM>` finds depends on the instruction word alone: not on the
-- address, nor on anything that an earlier instruction left in the context.
pub decode_arm-same :
    (op addr addr' : ℕ) (c d : Context)
    → ((decode_arm op addr c).instruction ≡ (decode_arm op addr' d).instruction)
unfolding decode_arm decode_condition
decode_arm-same op addr addr' c d = decode_instruction-same _ _ refl refl
