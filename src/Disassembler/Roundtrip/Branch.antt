-- ===== src/Disassembler/Roundtrip/Branch.antt =====
-- ARM branches.
use ndse_core.Base.{ℕ, ◌+◌, ◌%◌, ◌^◌, ◌<◌, ◌≤◌, ◌≡◌, arith, field, refl, ap, if◌then◌else◌, ◌==◌}
use ndse_core.Disassembler.{Context, Inst, condition_of}
use ndse_core.Disassembler.Encode.{encode_branch}
use ndse_core.Disassembler.Arm.{decode_instruction}
use ndse_core.Disassembler.Arm.Shifter.{decode_condition, decode_simm24}
use ndse_core.Disassembler.Arm.Memory.{decode_101_branch}
use ndse_core.Disassembler.Decode.{decode_arm}
use ndse_core.Disassembler.Roundtrip.{start, is_nv-condition_of}

decode_arm-branch :
    (op addr : ℕ) (c : Context)
    → field op 28 4 < 15
    → field op 25 3 ≡ 5
    → decode_arm op addr c ≡ decode_101_branch (start op addr c)
unfolding decode_arm decode_instruction decode_condition
decode_arm-branch op addr c h g = rw (is_nv-condition_of (field op 28 4) h, g)

-- A branch that is assembled for a target in reach decodes to that target.
pub decode-encode_branch :
    (cond link addr target : ℕ) (c : Context)
    → cond < 15
    → link < 2
    → addr < 2 ^ 32
    → target < 2 ^ 32
    → target % 4 ≡ addr % 4
    → target < addr + 8 + 2 ^ 25
    → addr + 8 ≤ target + 2 ^ 25
    → let d = decode_arm (encode_branch cond link addr target) addr c in
      (d.imm ≡ target)
      × (d.cond ≡ condition_of cond)
      × (d.instruction ≡ (if link == 1 then Inst.bl else Inst.b))
unfolding decode_101_branch decode_simm24
decode-encode_branch cond link addr target c hc hl ha ht al fwd bwd =
    let cond_field : field (encode_branch cond link addr target) 28 4 ≡ cond = omega arith in
    let link_field : field (encode_branch cond link addr target) 24 1 ≡ link = omega arith in
    rw (decode_arm-branch (encode_branch cond link addr target) addr c (omega arith) (omega arith))
      (ground arith, ap condition_of cond_field, rw link_field refl)
