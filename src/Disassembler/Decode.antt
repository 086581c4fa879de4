-- ===== src/Disassembler/Decode.antt =====
-- The two instances of `disassembler::decode` of Core/Disassembler.cpp.
use ndse_core.Base.{ℕ, ◌%◌, ◌^◌}
use ndse_core.Disassembler.{Context, Shift}
use ndse_core.Disassembler.Arm.{decode_instruction}
use ndse_core.Disassembler.Arm.Shifter.{decode_condition}
use ndse_core.Disassembler.Thumb.{decode_instruction_thumb}

-- `decode<IS_ARM>`. The fields that it does not set keep what the last instruction left in them.
unfoldable pub decode_arm : ℕ → ℕ → Context → Context
decode_arm op addr c =
    let c' : Context = record c { op = op; flags = 0; addr = addr; shift = Shift.lsl } in
    decode_instruction (decode_condition c')

-- `decode<IS_THUMB>`
unfoldable pub decode_thumb : ℕ → ℕ → Context → Context
decode_thumb op addr c =
    decode_instruction_thumb
      (record c { op = op % 2 ^ 16; flags = 0; addr = addr; shift = Shift.lsl })
