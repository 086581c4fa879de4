-- ===== src/Disassembler/Encode.antt =====
-- Instruction words by their fields, as the ARM Architecture Reference Manual lays them out: an
-- assembler for the encodings below, written without looking at the decoder.
use mathlib.Core.List.{[], ◌∷◌}
use ndse_core.Base.{ℕ, ◌+◌, ◌-◌, ◌*◌, ◌/◌, ◌%◌, ◌^◌, switch}
use ndse_core.Disassembler.{Inst}

-- The operations by their four-bit opcode: with an immediate, and with a shifted register.
unfoldable pub alu_imm : ℕ → Inst
alu_imm opcode =
    switch opcode
      ((0, Inst.and_i)
        ∷ (1, Inst.eor_i)
        ∷ (2, Inst.sub_i)
        ∷ (3, Inst.rsb_i)
        ∷ (4, Inst.add_i)
        ∷ (5, Inst.adc_i)
        ∷ (6, Inst.sbc_i)
        ∷ (7, Inst.rsc_i)
        ∷ (8, Inst.tst_i)
        ∷ (9, Inst.teq_i)
        ∷ (10, Inst.cmp_i)
        ∷ (11, Inst.cmn_i)
        ∷ (12, Inst.orr_i)
        ∷ (13, Inst.mov_i)
        ∷ (14, Inst.bic_i)
        ∷ (15, Inst.mvn_i)
        ∷ [])
      Inst.ud

-- cond 001 opcode S Rn Rd rotate imm8
abbrev pub encode_data_imm : (cond opcode s rn rd rotate imm8 : ℕ) → ℕ
encode_data_imm cond opcode s rn rd rotate imm8 =
    cond * 2 ^ 28
    + 2 ^ 25
    + opcode * 2 ^ 21
    + s * 2 ^ 20
    + rn * 2 ^ 16
    + rd * 2 ^ 12
    + rotate * 2 ^ 8
    + imm8

-- cond 101 L offset, where the offset counts words from the address of the branch plus 8.
abbrev pub encode_branch : (cond link addr target : ℕ) → ℕ
encode_branch cond link addr target =
    cond * 2 ^ 28 + 5 * 2 ^ 25 + link * 2 ^ 24 + (target + 2 ^ 34 - addr - 8) / 4 % 2 ^ 24

-- cond 010 P U B W L Rn Rd offset12: a word (`byte = 0`) or byte transfer at `rn + offset` or
-- `rn - offset`, addressed before the transfer and without write-back.
abbrev pub encode_load_store : (cond up byte load rn rd offset : ℕ) → ℕ
encode_load_store cond up byte load rn rd offset =
    cond * 2 ^ 28
    + 2 * 2 ^ 25
    + 2 ^ 24
    + up * 2 ^ 23
    + byte * 2 ^ 22
    + load * 2 ^ 20
    + rn * 2 ^ 16
    + rd * 2 ^ 12
    + offset

-- The halves of a Thumb `bl` to `target`: 11110 and the upper eleven bits of the distance from the
-- first half's address plus 4, then 11111 and the lower eleven; the distance counts halfwords.
abbrev pub half_distance : (addr target : ℕ) → ℕ
half_distance addr target = (target + 2 ^ 33 - addr - 4) / 2 % 2 ^ 22

abbrev pub encode_bl_prefix : (addr target : ℕ) → ℕ
encode_bl_prefix addr target = 30 * 2 ^ 11 + half_distance addr target / 2 ^ 11

abbrev pub encode_bl_suffix : (addr target : ℕ) → ℕ
encode_bl_suffix addr target = 31 * 2 ^ 11 + half_distance addr target % 2 ^ 11

-- A Thumb conditional branch: 1101 cond offset8, in halfwords from the address plus 4.
abbrev pub encode_bcond : (cond addr target : ℕ) → ℕ
encode_bcond cond addr target =
    13 * 2 ^ 12 + cond * 2 ^ 8 + (target + 2 ^ 33 - addr - 4) / 2 % 2 ^ 8
