-- ===== src/Disassembler/Arm/Shifter.antt =====
-- The operand decoders that several ARM instruction groups share.
use Prim.Native.Nat.{◌+◌, ◌%◌, ◌^◌}
use ndse_core.Base.{◌==◌, if◌then◌else◌, bit, field, rotr32, shl32, asr32, u32, neg32, ◌*◌}
use ndse_core.Disassembler.{Context, Shift, condition_of, shift_of, decode_reg, flag, u_bit}

unfoldable pub decode_condition : Context → Context
decode_condition c = record c { cond = condition_of (field c.op 28 4) }

-- What `decode_shift` makes of the shift type and amount: a zero amount means 32, or RRX.
unfoldable pub adjust_shift : Shift → Context → Context
adjust_shift Shift.lsl c = c
adjust_shift Shift.ror c = if c.imm == 0 then record c { shift = Shift.rrx } else c
adjust_shift _ c = if c.imm == 0 then record c { imm = 32 } else c

unfoldable pub decode_shift : Context → Context
unfolding adjust_shift
decode_shift c =
    let s = shift_of (field c.op 5 2) in
    adjust_shift s (record c { shift = s; imm = field c.op 7 5 })

unfoldable pub decode_shift_reg : Context → Context
decode_shift_reg c = record c { shift = shift_of (field c.op 5 2); rs = decode_reg 8 c }

-- `((addr << 8) >> 6) + ctx.addr + 8` on a `signed int`: the 24-bit offset, sign-extended, in words.
unfoldable pub decode_simm24 : Context → Context
decode_simm24 c = record c { imm = u32 (asr32 (shl32 (c.op % 2 ^ 24) 8) 6 + c.addr + 8) }

-- `(ctx.op >> 7) & 0x1E` is twice the four-bit field at bit 8.
unfoldable pub decode_imm_shifter : Context → Context
decode_imm_shifter c = record c { imm = rotr32 (c.op % 256) (2 * field c.op 8 4) }

unfoldable pub decode_addressingmode2 : Context → Context
decode_addressingmode2 c =
    let c' : Context = record c { rn = decode_reg 16 c; rd = decode_reg 12 c } in
    if bit c.op 23
    then flag u_bit (record c' { imm = c.op % 2 ^ 12 })
    else record c' { imm = neg32 (c.op % 2 ^ 12) }
