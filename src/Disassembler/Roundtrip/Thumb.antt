-- ===== src/Disassembler/Roundtrip/Thumb.antt =====
-- Thumb branches: the two halves of `bl`, and the conditional branch.
use ndse_core.Base.{
  ℕ, ◌+◌, ◌*◌, ◌/◌, ◌%◌, ◌^◌, ◌<◌, ◌≤◌, ◌≡◌, arith, field, u32, asr32, shl32, refl,
}
use ndse_core.Base.{true, bit, ap, ◌∙◌}
use ndse_core.Disassembler.{Context, Inst, Shift, Condition, condition_of}
use ndse_core.Disassembler.Encode.{encode_bl_prefix, encode_bl_suffix, encode_bcond}
use ndse_core.Disassembler.Thumb.{decode_instruction_thumb}
use ndse_core.Disassembler.Thumb.Memory.{decode_t111, decode_t110, decode_t1101_bcond_swi}
use ndse_core.Disassembler.Decode.{decode_thumb}

-- The context that `decode<IS_THUMB>` hands to the groups.
abbrev start_thumb : ℕ → ℕ → Context → Context
start_thumb op addr c = record c {
  op = op % 2 ^ 16;
  flags = 0;
  addr = addr;
  shift = Shift.lsl;
  instruction = Inst.debug;
  cond = Condition.al;
  imm = 0;
}

decode_thumb-t111 :
    (op addr : ℕ) (c : Context)
    → op % 2 ^ 16 / 2 ^ 13 ≡ 7
    → decode_thumb op addr c ≡ decode_t111 (start_thumb op addr c)
unfolding decode_thumb decode_instruction_thumb
decode_thumb-t111 op addr c g = rw g

decode_t111-prefix :
    (c : Context)
    → field c.op 11 2 ≡ 2
    → (decode_t111 c).instruction ≡ Inst.bpre
      × ((decode_t111 c).imm ≡ u32 (c.addr + 4 + asr32 (shl32 (c.op % 2 ^ 11) 21) 9))
unfolding decode_t111
decode_t111-prefix c h = rw h (refl, refl)

decode_t111-suffix :
    (c : Context)
    → field c.op 11 2 ≡ 3
    → ((decode_t111 c).instruction ≡ Inst.bl) × ((decode_t111 c).imm ≡ c.op % 2 ^ 11 * 2)
unfolding decode_t111
decode_t111-suffix c h = rw h (refl, refl)

-- A Thumb `bl` assembled for a halfword-aligned target within 4 MB decodes to a prefix and a suffix
-- whose immediates add up to the target.
pub decode-encode_bl :
    (addr target : ℕ) (c c' : Context)
    → addr < 2 ^ 32
    → target < 2 ^ 32
    → target % 2 ≡ addr % 2
    → target < addr + 4 + 2 ^ 22
    → addr + 4 ≤ target + 2 ^ 22
    → let first = decode_thumb (encode_bl_prefix addr target) addr c in
      let second = decode_thumb (encode_bl_suffix addr target) (u32 (addr + 2)) c' in
      (first.instruction ≡ Inst.bpre)
      × (second.instruction ≡ Inst.bl)
      × (u32 (first.imm + second.imm) ≡ target)
decode-encode_bl addr target c c' ha ht al fwd bwd =
    let high = encode_bl_prefix addr target in
    let low = encode_bl_suffix addr target in
    let first = decode_t111-prefix (start_thumb high addr c) (omega arith) in
    let second = decode_t111-suffix (start_thumb low (u32 (addr + 2)) c') (omega arith) in
    rw
      (
        decode_thumb-t111 high addr c (omega arith),
        decode_thumb-t111 low (u32 (addr + 2)) c' (omega arith),
      )
      (first.0, second.0, rw (first.1, second.1) (ground arith))

decode_t110-branch :
    (c : Context)
    → bit c.op 12 ≡ true
    → field c.op 8 4 < 14
    → ((decode_t110 c).instruction ≡ Inst.b)
      × ((decode_t110 c).cond ≡ condition_of (field c.op 8 4))
      × ((decode_t110 c).imm ≡ u32 (c.addr + asr32 (shl32 (c.op % 256) 24) 23 + 4))
unfolding decode_t110 decode_t1101_bcond_swi condition_of
decode_t110-branch c g h = rw g (ground arith)

decode_thumb-t110 :
    (op addr : ℕ) (c : Context)
    → op % 2 ^ 16 / 2 ^ 13 ≡ 6
    → decode_thumb op addr c ≡ decode_t110 (start_thumb op addr c)
unfolding decode_thumb decode_instruction_thumb
decode_thumb-t110 op addr c g = rw g

-- A Thumb conditional branch assembled for a halfword-aligned target within 256 bytes, on any
-- condition but AL and NV, decodes to that condition and target.
pub decode-encode_bcond :
    (cond addr target : ℕ) (c : Context)
    → cond < 14
    → addr < 2 ^ 32
    → target < 2 ^ 32
    → target % 2 ≡ addr % 2
    → target < addr + 4 + 2 ^ 8
    → addr + 4 ≤ target + 2 ^ 8
    → let d = decode_thumb (encode_bcond cond addr target) addr c in
      (d.instruction ≡ Inst.b) × (d.cond ≡ condition_of cond) × (d.imm ≡ target)
decode-encode_bcond cond addr target c hc ha ht al fwd bwd =
    let op = encode_bcond cond addr target in
    let is_branch : bit (op % 2 ^ 16) 12 ≡ true = ground arith in
    let e : field (op % 2 ^ 16) 8 4 ≡ cond = omega arith in
    let branch = decode_t110-branch (start_thumb op addr c) is_branch (omega arith) in
    rw (decode_thumb-t110 op addr c (omega arith))
      (branch.0, branch.1 ∙ ap condition_of e, rw branch.2 (ground arith))
