-- ===== src/Disassembler/Tests.antt =====
-- Instruction words run through the decoder of Core/Disassembler.h, and instances of its theorems.
use ndse_core.Base.{◌+◌, ◌*◌, ◌≡◌, refl, arith, rotr32, neg32, u32}
use ndse_core.Disassembler.{
  Context, Inst, Condition, Shift, AddressingMode, ExtendMode, condition_of,
}
use ndse_core.Disassembler.Encode.{encode_data_imm, encode_branch, encode_load_store, alu_imm}
use ndse_core.Disassembler.Encode.{encode_bl_prefix, encode_bl_suffix}
use ndse_core.Disassembler.Decode.{decode_arm, decode_thumb}
use ndse_core.Disassembler.Range.{IsInRange}
use ndse_core.Disassembler.Range.Decode.{decode_arm-IsInRange, decode_thumb-IsInRange}
use ndse_core.Disassembler.Roundtrip.Branch.{decode-encode_branch}
use ndse_core.Disassembler.Roundtrip.Data.{decode-encode_data_imm, decode-encode_load_store}
use ndse_core.Disassembler.Roundtrip.Thumb.{decode-encode_bl}
use ndse_core.Disassembler.Fresh.Arm.{decode_arm-same}
use ndse_core.Disassembler.Arm.{decode_instruction, decode_000_data_reg}
use ndse_core.Disassembler.Arm.Shifter.{decode_condition, decode_shift, decode_imm_shifter}
use ndse_core.Disassembler.Arm.Data.{data_imm_cases, decode_001_data_imm, decode_000_imms}
use ndse_core.Disassembler.Thumb.{decode_instruction_thumb}
use ndse_core.Disassembler.Thumb.Arith.{decode_t000}

abbrev blank : Context
blank = record {
  instruction = Inst.ud;
  cond = Condition.eq;
  shift = Shift.lsl;
  addressing_mode = AddressingMode.da;
  extend_mode = ExtendMode.invalid;
  flags = 0;
  imm = 0;
  rd = 0;
  rn = 0;
  rm = 0;
  rs = 0;
  cp_num = 0;
  cp_op1 = 0;
  cp_op2 = 0;
  op = 0;
  addr = 0;
}

blank-IsInRange : IsInRange blank
blank-IsInRange = omega arith

-- `movs r1, #0x2A0` and `mov r1, r2, lsr #32`
mov_imm : (decode_arm 0xE3B01E2A 0 blank).imm ≡ 0x2A0
unfolding decode_arm decode_condition condition_of decode_instruction decode_001_data_imm
    data_imm_cases decode_imm_shifter
mov_imm = refl

mov_lsr : (decode_arm 0xE1A01022 0 blank).imm ≡ 32
unfolding decode_arm decode_condition condition_of decode_instruction decode_000_data_reg
    decode_000_imms decode_shift
mov_lsr = refl

-- `asr r1, r2, #5` in Thumb
thumb_asr : (decode_thumb 0x1151 0 blank).shift ≡ Shift.asr
unfolding decode_thumb decode_instruction_thumb decode_t000
thumb_asr = refl

decode_arm-IsInRange_example : IsInRange (decode_arm 0xE3B01E2A 0x2000000 blank)
decode_arm-IsInRange_example = decode_arm-IsInRange 0xE3B01E2A 0x2000000 blank-IsInRange

decode_thumb-IsInRange_example : IsInRange (decode_thumb 0x1151 0x2000000 blank)
decode_thumb-IsInRange_example = decode_thumb-IsInRange 0x1151 0x2000000 blank-IsInRange

-- A backward `blne`
decode-encode_branch_example :
    let d = decode_arm (encode_branch 1 1 0x2000100 0x2000000) 0x2000100 blank in
    (d.imm ≡ 0x2000000) × (d.cond ≡ condition_of 1) × (d.instruction ≡ Inst.bl)
decode-encode_branch_example =
    decode-encode_branch 1 1 0x2000100 0x2000000 blank (omega arith) (omega arith) (omega arith)
      (omega arith) refl (omega arith) (omega arith)

-- `movs r1, #0x2A0`
decode-encode_data_imm_example :
    let d = decode_arm (encode_data_imm 14 13 1 0 1 14 0x2A) 0 blank in
    (d.instruction ≡ alu_imm 13)
    × (d.cond ≡ condition_of 14)
    × (d.rn ≡ 0)
    × (d.rd ≡ 1)
    × (d.imm ≡ rotr32 0x2A (2 * 14))
decode-encode_data_imm_example =
    decode-encode_data_imm 14 13 1 0 1 14 0x2A 0 blank (omega arith) (omega arith) (omega arith)
      (omega arith) (omega arith) (omega arith) (omega arith) (omega arith)

-- `ldrb r3, [r4, #-8]`
decode-encode_load_store_example :
    let d = decode_arm (encode_load_store 14 0 1 1 4 3 8) 0 blank in
    (d.instruction ≡ Inst.ldrb_ip) × (d.rn ≡ 4) × (d.rd ≡ 3) × (d.imm ≡ neg32 8)
decode-encode_load_store_example =
    decode-encode_load_store 14 0 1 1 4 3 8 0 blank (omega arith) (omega arith) (omega arith)
      (omega arith) (omega arith) (omega arith) (omega arith)

decode-encode_bl_example :
    let first = decode_thumb (encode_bl_prefix 0x2000100 0x2000000) 0x2000100 blank in
    let second = decode_thumb (encode_bl_suffix 0x2000100 0x2000000) (u32 (0x2000100 + 2)) blank in
    (first.instruction ≡ Inst.bpre)
    × (second.instruction ≡ Inst.bl)
    × (u32 (first.imm + second.imm) ≡ 0x2000000)
decode-encode_bl_example =
    decode-encode_bl 0x2000100 0x2000000 blank blank (omega arith) (omega arith) refl (omega arith)
      (omega arith)

decode_arm-same_example :
    (decode_arm 0xE3B01E2A 0 blank).instruction
    ≡ (decode_arm 0xE3B01E2A 64 (decode_arm 0xE1A01022 60 blank)).instruction
decode_arm-same_example = decode_arm-same 0xE3B01E2A 0 64 blank (decode_arm 0xE1A01022 60 blank)
