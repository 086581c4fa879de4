-- ===== src/Disassembler/Roundtrip.antt =====
-- Decoding an encoded instruction gives its fields back: what the groups share.
pub mod Branch
pub mod Data
pub mod Thumb
use ndse_core.Base.{
  ℕ, ◌+◌, ◌-◌, ◌*◌, ◌/◌, ◌%◌, ◌^◌, ◌<◌, ◌≤◌, ◌≡◌, ◌⊎◌, arith, field, bit, rotr32, true, false, refl,
  ap, ap₂, ◌∙◌, u32, asr32, shl32, if◌then◌else◌, ◌==◌,
}
use ndse_core.Disassembler.{Context, Condition, Inst, Shift, condition_of, is_nv}
use ndse_core.Disassembler.Encode.{alu_imm, encode_data_imm, encode_branch}
use ndse_core.Disassembler.Arm.{decode_instruction}
use ndse_core.Disassembler.Arm.Shifter.{decode_condition, decode_imm_shifter, decode_simm24}
use ndse_core.Disassembler.Arm.Data.{decode_001_data_imm}
use ndse_core.Disassembler.Arm.Memory.{decode_101_branch}
use ndse_core.Disassembler.Decode.{decode_arm}

pub is_nv-condition_of : (x : ℕ) → x < 15 → is_nv (condition_of x) ≡ false
unfolding condition_of
is_nv-condition_of x h = ground arith

-- The context that `decode<IS_ARM>` hands to `decode_instruction`.
abbrev pub start : ℕ → ℕ → Context → Context
start op addr c = record c {
  op = op;
  flags = 0;
  addr = addr;
  shift = Shift.lsl;
  cond = condition_of (field op 28 4);
}
