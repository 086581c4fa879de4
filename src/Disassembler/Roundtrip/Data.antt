-- ===== src/Disassembler/Roundtrip/Data.antt =====
-- ARM data processing with an immediate, and word and byte transfers.
use ndse_core.Base.{
  ℕ, Bool, true, bit, ◌*◌, ◌%◌, ◌^◌, ◌<◌, ◌≤◌, ◌≡◌, ◌⊎◌, arith, field, rotr32, ap, ap₂, ◌∙◌,
  if◌then◌else◌, ◌==◌,
}
use ndse_core.Disassembler.{Context, Inst, inst_ud, condition_of, decode_reg, flag, s_bit}
use ndse_core.Disassembler.Encode.{alu_imm, encode_data_imm}
use ndse_core.Disassembler.Arm.{decode_instruction}
use ndse_core.Disassembler.Arm.Shifter.{decode_condition, decode_imm_shifter}
use ndse_core.Disassembler.Arm.Data.{data_imm_cases, decode_001_data_imm}
use ndse_core.Disassembler.Operands.{flag_if-SameOperands, decode_001_data_imm-SameOperands}
use ndse_core.Disassembler.Decode.{decode_arm}
use ndse_core.Disassembler.Roundtrip.{start, is_nv-condition_of}
use ndse_core.Base.{neg32, switch}
use ndse_core.Disassembler.Encode.{encode_load_store}
use ndse_core.Disassembler.Arm.Shifter.{decode_addressingmode2}
use ndse_core.Disassembler.Arm.Memory.{decode_010_loadstore_imm}

decode_arm-data_imm :
    (op addr : ℕ) (c : Context)
    → field op 28 4 < 15
    → field op 25 3 ≡ 1
    → decode_arm op addr c ≡ decode_001_data_imm (start op addr c)
unfolding decode_arm decode_instruction decode_condition
decode_arm-data_imm op addr c h g = rw (is_nv-condition_of (field op 28 4) h, g)

-- The operation that `decode_001_data_imm` finds, if a comparison sets the flags.
data_imm_cases-alu_imm :
    (sbit : Bool) (opcode : ℕ) (c : Context)
    → (opcode < 8) ⊎ (12 ≤ opcode) ⊎ (sbit ≡ true)
    → opcode < 16
    → (switch opcode (data_imm_cases sbit c) (inst_ud c)).instruction ≡ alu_imm opcode
unfolding data_imm_cases alu_imm
data_imm_cases-alu_imm sbit opcode c h k = ground arith

decode_001_data_imm-alu_imm :
    (c : Context)
    → (field c.op 21 4 < 8) ⊎ (12 ≤ field c.op 21 4) ⊎ (field c.op 20 1 ≡ 1)
    → (decode_001_data_imm c).instruction ≡ alu_imm (field c.op 21 4)
unfolding decode_001_data_imm decode_imm_shifter
decode_001_data_imm-alu_imm c h =
    let fields : Context = record c { rn = decode_reg 16 c; rd = decode_reg 12 c } in
    let d = decode_imm_shifter fields in
    let sbit = bit c.op 20 in
    let e = if sbit then flag s_bit d else d in
    let same = flag_if-SameOperands sbit s_bit d in
    ap (λ op. (switch (field op 21 4) (data_imm_cases sbit e) (inst_ud e)).instruction) same.same_op
    ∙ data_imm_cases-alu_imm sbit (field c.op 21 4) e (ground arith) (omega arith)

-- A data-processing instruction with an immediate, assembled from its fields, decodes to its
-- operation, condition and registers, and the immediate is the byte rotated right by twice the
-- rotation field. A comparison (opcodes 8 to 11) has the flag bit set.
pub decode-encode_data_imm :
    (cond opcode s rn rd rotate imm8 addr : ℕ) (c : Context)
    → cond < 15
    → opcode < 16
    → s < 2
    → (opcode < 8) ⊎ (12 ≤ opcode) ⊎ (s ≡ 1)
    → rn < 16
    → rd < 16
    → rotate < 16
    → imm8 < 256
    → let d = decode_arm (encode_data_imm cond opcode s rn rd rotate imm8) addr c in
      (d.instruction ≡ alu_imm opcode)
      × (d.cond ≡ condition_of cond)
      × (d.rn ≡ rn)
      × (d.rd ≡ rd)
      × (d.imm ≡ rotr32 imm8 (2 * rotate))
unfolding decode_imm_shifter
decode-encode_data_imm cond opcode s rn rd rotate imm8 addr c h0 h1 h2 h3 h4 h5 h6 h7 =
    let op = encode_data_imm cond opcode s rn rd rotate imm8 in
    let e0 : field op 28 4 ≡ cond = omega arith in
    let e1 : field op 21 4 ≡ opcode = omega arith in
    let e2 : field op 20 1 ≡ s = omega arith in
    let e3 : field op 16 4 ≡ rn = omega arith in
    let e4 : field op 12 4 ≡ rd = omega arith in
    let e5 : field op 8 4 ≡ rotate = omega arith in
    let e6 : op % 256 ≡ imm8 = omega arith in
    let fields = decode_001_data_imm-SameOperands (start op addr c) in
    rw (decode_arm-data_imm op addr c (omega arith) (omega arith)) (
      decode_001_data_imm-alu_imm (start op addr c) (rw (e1, e2) h3) ∙ ap alu_imm e1,
      fields.same_cond ∙ ap condition_of e0,
      fields.same_rn ∙ e3,
      fields.same_rd ∙ e4,
      fields.same_imm ∙ ap₂ (λ x k. rotr32 x (2 * k)) e6 e5,
    )

decode_arm-load_store :
    (op addr : ℕ) (c : Context)
    → field op 28 4 < 15
    → field op 25 3 ≡ 2
    → decode_arm op addr c ≡ decode_010_loadstore_imm (start op addr c)
unfolding decode_arm decode_instruction decode_condition
decode_arm-load_store op addr c h g = rw (is_nv-condition_of (field op 28 4) h, g)

-- The transfer that the bits B and L name.
abbrev pub transfer : (byte load : ℕ) → Inst
transfer byte load =
    if byte == 1
    then if load == 1 then Inst.ldrb_ip else Inst.strb_ip
    else if load == 1
    then Inst.ldr_ip
    else Inst.str_ip

decode_010_loadstore_imm-fields :
    (c : Context)
    → field c.op 24 1 ≡ 1
    → field c.op 21 1 ≡ 0
    → let d = decode_010_loadstore_imm c in
      (d.instruction ≡ transfer (field c.op 22 1) (field c.op 20 1))
      × (d.rn ≡ field c.op 16 4)
      × (d.rd ≡ field c.op 12 4)
      × (d.imm ≡ (if field c.op 23 1 == 1 then c.op % 2 ^ 12 else neg32 (c.op % 2 ^ 12)))
unfolding decode_010_loadstore_imm decode_addressingmode2
decode_010_loadstore_imm-fields c p w = ground arith

-- A word or byte transfer with an immediate offset decodes to its direction, width and registers,
-- and the immediate is the offset, or its negation modulo 2 ^ 32 if the bit U is clear.
pub decode-encode_load_store :
    (cond up byte load rn rd offset addr : ℕ) (c : Context)
    → cond < 15
    → up < 2
    → byte < 2
    → load < 2
    → rn < 16
    → rd < 16
    → offset < 2 ^ 12
    → let d = decode_arm (encode_load_store cond up byte load rn rd offset) addr c in
      (d.instruction ≡ transfer byte load)
      × (d.rn ≡ rn)
      × (d.rd ≡ rd)
      × (d.imm ≡ (if up == 1 then offset else neg32 offset))
decode-encode_load_store cond up byte load rn rd offset addr c h0 h1 h2 h3 h4 h5 h6 =
    let op = encode_load_store cond up byte load rn rd offset in
    let e1 : field op 23 1 ≡ up = omega arith in
    let e2 : field op 22 1 ≡ byte = omega arith in
    let e3 : field op 20 1 ≡ load = omega arith in
    let e4 : field op 16 4 ≡ rn = omega arith in
    let e5 : field op 12 4 ≡ rd = omega arith in
    let e6 : op % 2 ^ 12 ≡ offset = omega arith in
    let fields = decode_010_loadstore_imm-fields (start op addr c) (omega arith) (omega arith) in
    rw (decode_arm-load_store op addr c (omega arith) (omega arith)) (
      fields.0 ∙ ap₂ transfer e2 e3,
      fields.1 ∙ e4,
      fields.2 ∙ e5,
      fields.3 ∙ λ i. if e1 i == 1 then e6 i else neg32 (e6 i),
    )
