-- ===== src/Disassembler/Thumb.antt =====
-- The Thumb decoder: `decode_instruction_thumb` chooses the group by the bits 13 to 15.
pub mod Arith
pub mod Memory
use mathlib.Core.List.{[], ◌∷◌}
use ndse_core.Base.{switch, ◌/◌, ◌^◌}
use ndse_core.Disassembler.{Context, Inst, Condition, inst_ud}
use Arith.{decode_t000, decode_t001, decode_t010}
use Memory.{decode_t011, decode_t100, decode_t101, decode_t110, decode_t111}

unfoldable pub decode_instruction_thumb : Context → Context
decode_instruction_thumb c =
    let c' : Context = record c { instruction = Inst.debug; cond = Condition.al; imm = 0 } in
    switch (c.op / 2 ^ 13)
      ((0, decode_t000 c')
        ∷ (1, decode_t001 c')
        ∷ (2, decode_t010 c')
        ∷ (3, decode_t011 c')
        ∷ (4, decode_t100 c')
        ∷ (5, decode_t101 c')
        ∷ (6, decode_t110 c')
        ∷ (7, decode_t111 c')
        ∷ [])
      (inst_ud c')
