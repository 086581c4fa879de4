-- ===== src/Disassembler/Range/Memory.antt =====
-- The loads and stores, branches and coprocessor encodings of the ARM decoder.
use ndse_core.Base.{◌%◌, ◌^◌, bit, if◌then◌else◌, arith}
use ndse_core.Disassembler.{Context, decode_reg, s_bit, u_bit, flag}
use ndse_core.Disassembler.Range.{IsInRange, flag_if-IsInRange}
use ndse_core.Disassembler.Range.Data.{decode_shift-IsInRange, decode_simm24-IsInRange}
use ndse_core.Disassembler.Range.Data.{decode_addressingmode2-IsInRange}
use ndse_core.Disassembler.Arm.Memory.{
  decode_010_loadstore_imm, loadstore_reg_switch, decode_011_loadstore_reg,
}
use ndse_core.Disassembler.Arm.Memory.{decode_100_loadstoremultiple, decode_101_branch}
use ndse_core.Disassembler.Arm.Memory.{decode_110, decode_swi, decode_coproc, decode_111}
use ndse_core.Disassembler.Arm.Memory.{decode_instruction_nv}

pub decode_010_loadstore_imm-IsInRange :
    {c : Context} → IsInRange c → IsInRange (decode_010_loadstore_imm c)
unfolding decode_010_loadstore_imm
decode_010_loadstore_imm-IsInRange v = ground (arith, decode_addressingmode2-IsInRange v)

loadstore_reg_switch-IsInRange : {c : Context} → IsInRange c → IsInRange (loadstore_reg_switch c)
unfolding loadstore_reg_switch
loadstore_reg_switch-IsInRange v = ground arith

pub decode_011_loadstore_reg-IsInRange :
    {c : Context} → IsInRange c → IsInRange (decode_011_loadstore_reg c)
unfolding decode_011_loadstore_reg
decode_011_loadstore_reg-IsInRange {c} v =
    let up = if bit c.op 23 then flag u_bit c else c in
    let regs : Context = record up {
      rn = decode_reg 16 c;
      rd = decode_reg 12 c;
      rm = decode_reg 0 c;
    } in
    let w : IsInRange regs = ground arith in
    ground (arith, loadstore_reg_switch-IsInRange (decode_shift-IsInRange w))

pub decode_100_loadstoremultiple-IsInRange :
    {c : Context} → IsInRange c → IsInRange (decode_100_loadstoremultiple c)
unfolding decode_100_loadstoremultiple
decode_100_loadstoremultiple-IsInRange {c} v =
    let regs : Context = record c { rn = decode_reg 16 c; imm = c.op % 2 ^ 16 } in
    let w : IsInRange regs = ground arith in ground (arith, flag_if-IsInRange (bit c.op 22) s_bit w)

pub decode_101_branch-IsInRange : {c : Context} → IsInRange c → IsInRange (decode_101_branch c)
unfolding decode_101_branch
decode_101_branch-IsInRange v = ground (arith, decode_simm24-IsInRange v)

pub decode_110-IsInRange : {c : Context} → IsInRange c → IsInRange (decode_110 c)
unfolding decode_110
decode_110-IsInRange v = ground arith

pub decode_111-IsInRange : {c : Context} → IsInRange c → IsInRange (decode_111 c)
unfolding decode_111 decode_swi decode_coproc
decode_111-IsInRange v = ground arith

pub decode_instruction_nv-IsInRange :
    {c : Context} → IsInRange c → IsInRange (decode_instruction_nv c)
unfolding decode_instruction_nv
decode_instruction_nv-IsInRange v = ground (arith, decode_addressingmode2-IsInRange v)
