-- ===== src/Disassembler/Arm.antt =====
-- The ARM decoder: `decode_instruction` chooses the group by the bits 25 to 27.
pub mod Shifter
pub mod Data
pub mod Multiply
pub mod Memory
use mathlib.Core.List.{[], ◌∷◌}
use ndse_core.Base.{if◌then◌else◌, switch, bit, field}
use ndse_core.Disassembler.{Context, decode_reg, is_nv, inst_ud}
use Data.{decode_000_imms, decode_001_data_imm}
use Multiply.{decode_000_regs}
use Memory.{decode_010_loadstore_imm, decode_011_loadstore_reg, decode_100_loadstoremultiple}
use Memory.{decode_101_branch, decode_110, decode_111, decode_instruction_nv}

unfoldable pub decode_000_data_reg : Context → Context
decode_000_data_reg c =
    let c' : Context = record c {
      rn = decode_reg 16 c;
      rd = decode_reg 12 c;
      rm = decode_reg 0 c;
    } in
    if bit c.op 4 then decode_000_regs c' else decode_000_imms c'

unfoldable pub decode_instruction : Context → Context
decode_instruction c =
    if is_nv c.cond
    then decode_instruction_nv c
    else switch (field c.op 25 3)
        ((0, decode_000_data_reg c)
          ∷ (1, decode_001_data_imm c)
          ∷ (2, decode_010_loadstore_imm c)
          ∷ (3, decode_011_loadstore_reg c)
          ∷ (4, decode_100_loadstoremultiple c)
          ∷ (5, decode_101_branch c)
          ∷ (6, decode_110 c)
          ∷ (7, decode_111 c)
          ∷ [])
        (inst_ud c)
