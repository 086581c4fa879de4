-- ===== src/Disassembler/Range/Decode.antt =====
-- Both decoders, from the first bit to the filled context.
use ndse_core.Base.{ℕ, arith}
use ndse_core.Disassembler.{Context, Condition, Inst, decode_reg}
use ndse_core.Disassembler.Range.{IsInRange}
use ndse_core.Disassembler.Range.Data.{decode_000_imms-IsInRange, decode_001_data_imm-IsInRange}
use ndse_core.Disassembler.Range.Multiply.{decode_000_regs-IsInRange}
use ndse_core.Disassembler.Range.Memory.{decode_010_loadstore_imm-IsInRange}
use ndse_core.Disassembler.Range.Memory.{decode_011_loadstore_reg-IsInRange}
use ndse_core.Disassembler.Range.Memory.{decode_100_loadstoremultiple-IsInRange}
use ndse_core.Disassembler.Range.Memory.{decode_101_branch-IsInRange, decode_110-IsInRange}
use ndse_core.Disassembler.Range.Memory.{decode_111-IsInRange, decode_instruction_nv-IsInRange}
use ndse_core.Disassembler.Range.Thumb.{decode_t000-IsInRange, decode_t001-IsInRange}
use ndse_core.Disassembler.Range.Thumb.{decode_t010-IsInRange, decode_t011-IsInRange}
use ndse_core.Disassembler.Range.Thumb.{decode_t100-IsInRange, decode_t101-IsInRange}
use ndse_core.Disassembler.Range.Thumb.{decode_t110-IsInRange, decode_t111-IsInRange}
use ndse_core.Disassembler.Arm.{decode_000_data_reg, decode_instruction}
use ndse_core.Disassembler.Arm.Shifter.{decode_condition}
use ndse_core.Disassembler.Thumb.{decode_instruction_thumb}
use ndse_core.Disassembler.Decode.{decode_arm, decode_thumb}

decode_000_data_reg-IsInRange : {c : Context} → IsInRange c → IsInRange (decode_000_data_reg c)
unfolding decode_000_data_reg
decode_000_data_reg-IsInRange {c} v =
    let c' : Context = record c {
      rn = decode_reg 16 c;
      rd = decode_reg 12 c;
      rm = decode_reg 0 c;
    } in
    let w : IsInRange c' = ground arith in
    ground (arith, decode_000_regs-IsInRange w, decode_000_imms-IsInRange w)

decode_instruction-IsInRange : {c : Context} → IsInRange c → IsInRange (decode_instruction c)
unfolding decode_instruction
decode_instruction-IsInRange v = ground (
  arith,
  decode_instruction_nv-IsInRange v,
  decode_000_data_reg-IsInRange v,
  decode_001_data_imm-IsInRange v,
  decode_010_loadstore_imm-IsInRange v,
  decode_011_loadstore_reg-IsInRange v,
  decode_100_loadstoremultiple-IsInRange v,
  decode_101_branch-IsInRange v,
  decode_110-IsInRange v,
  decode_111-IsInRange v,
)

decode_instruction_thumb-IsInRange :
    {c : Context} → IsInRange c → IsInRange (decode_instruction_thumb c)
unfolding decode_instruction_thumb
decode_instruction_thumb-IsInRange {c} v =
    let c' : Context = record c { instruction = Inst.debug; cond = Condition.al; imm = 0 } in
    let w : IsInRange c' = ground arith in
    ground (
      arith,
      decode_t000-IsInRange w,
      decode_t001-IsInRange w,
      decode_t010-IsInRange w,
      decode_t011-IsInRange w,
      decode_t100-IsInRange w,
      decode_t101-IsInRange w,
      decode_t110-IsInRange w,
      decode_t111-IsInRange w,
    )

-- Whatever the instruction word, its address and the operands that the last instruction left behind
-- (in range themselves), `decode<IS_ARM>` leaves register numbers and coprocessor numbers below 16,
-- `cp_op2` below 8 and an immediate that fits 32 bits.
pub decode_arm-IsInRange :
    (op addr : ℕ) {c : Context} → IsInRange c → IsInRange (decode_arm op addr c)
unfolding decode_arm decode_condition
decode_arm-IsInRange op addr {c} v = decode_instruction-IsInRange (ground arith)

-- The same of `decode<IS_THUMB>`.
pub decode_thumb-IsInRange :
    (op addr : ℕ) {c : Context} → IsInRange c → IsInRange (decode_thumb op addr c)
unfolding decode_thumb
decode_thumb-IsInRange op addr {c} v = decode_instruction_thumb-IsInRange (ground arith)
