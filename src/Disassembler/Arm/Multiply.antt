-- ===== src/Disassembler/Arm/Multiply.antt =====
-- The ARM encodings with bits 4 and 7 set: multiplies, swaps and the extra loads and stores.
use mathlib.Core.List.{[], ◌∷◌}
use mathlib.Core.Bool.{not}
use ndse_core.Base.{ℕ, ◌+◌, ◌*◌, ◌==◌, if◌then◌else◌, switch, bit, field, neg32}
use ndse_core.Disassembler.{Context, Inst, Shift, ExtendMode, flag, emit, decode_reg}
use ndse_core.Disassembler.{extend_mode_of, s_bit, u_bit, inst_ud, inst_unknown}
use ndse_core.Disassembler.Arm.Data.{data_reg_shift}

-- `(op >> 21) & 0xB`: the bits P and, of the three below it, the lower two.
abbrev ldrd_code : ℕ → ℕ
ldrd_code op = field op 24 1 * 8 + field op 21 2

-- The label order of the source has every value of the masked code.
unfoldable pub inst_ldrd : Context → Context
inst_ldrd c =
    switch (ldrd_code c.op)
      ((0, emit Inst.ldrd_r c)
        ∷ (1, emit Inst.ldrd_rw c)
        ∷ (2, emit Inst.ldrd_ri c)
        ∷ (3, emit Inst.ldrd_riw c)
        ∷ (8, emit Inst.ldrd_rp c)
        ∷ (9, emit Inst.ldrd_rpw c)
        ∷ (10, emit Inst.ldrd_rip c)
        ∷ (11, emit Inst.ldrd_ripw c)
        ∷ [])
      c

unfoldable pub decode_00000_mula : Context → Context
decode_00000_mula c =
    let regs : Context = record c {
      rs = decode_reg 8 c;
      rn = decode_reg 12 c;
      rd = decode_reg 16 c;
    } in
    let c' = if bit c.op 20 then flag s_bit regs else regs in
    if bit c.op 22
    then inst_ud c
    else switch (field c.op 20 2)
        ((0, if not (c'.rn == 0) then inst_unknown c' else emit Inst.mul_r c')
          ∷ (
            1,
            if not (c'.rn == 0)
                then inst_unknown (flag s_bit c')
                else emit Inst.mul_r (flag s_bit c'),
          )
          ∷ (2, emit Inst.mla_r c')
          ∷ (3, emit Inst.mla_r (flag s_bit c'))
          ∷ [])
        (inst_ud c')

unfoldable pub decode_00001_mulal : Context → Context
decode_00001_mulal c =
    let regs : Context = record c { rs = decode_reg 8 c } in
    let c' = if bit c.op 20 then flag s_bit regs else regs in
    switch (field c.op 21 2)
      ((0, emit Inst.umull c')
        ∷ (1, emit Inst.umlal c')
        ∷ (2, emit Inst.smull c')
        ∷ (3, emit Inst.smlal c')
        ∷ [])
      c'

unfoldable pub decode_00010_swap : Context → Context
decode_00010_swap c =
    switch (field c.op 20 3) ((0, emit Inst.swp c) ∷ (4, emit Inst.swpb c) ∷ []) (inst_ud c)

unfoldable pub decode_000_mulswap : Context → Context
decode_000_mulswap c =
    switch (field c.op 23 2)
      ((0, decode_00000_mula c) ∷ (1, decode_00001_mulal c) ∷ (2, decode_00010_swap c) ∷ [])
      (inst_ud c)

-- What the register forms of the extra loads and stores reset.
abbrev pub no_offset : Context → Context
no_offset c = record c { imm = 0; shift = Shift.lsl }

-- The last switch of `decode_000_mul_extraloadstore`. `(op >> 20) & 0x17` leaves out the bit U.
unfoldable pub extra_load_store : Context → Context
extra_load_store c =
    switch (field c.op 24 1 * 16 + field c.op 20 3)
      ((0, emit Inst.strx_r (no_offset c))
        ∷ (1, emit Inst.ldrx_r (no_offset c))
        ∷ (2, emit Inst.strx_rw (no_offset c))
        ∷ (3, emit Inst.ldrx_rw (no_offset c))
        ∷ (4, emit Inst.strx_i c)
        ∷ (5, emit Inst.ldrx_i c)
        ∷ (6, emit Inst.strx_iw c)
        ∷ (7, emit Inst.ldrx_iw c)
        ∷ (16, emit Inst.strx_rp (no_offset c))
        ∷ (17, emit Inst.ldrx_rp (no_offset c))
        ∷ (18, emit Inst.strx_rpw (no_offset c))
        ∷ (19, emit Inst.ldrx_rpw (no_offset c))
        ∷ (20, emit Inst.strx_ip c)
        ∷ (21, emit Inst.ldrx_ip c)
        ∷ (22, emit Inst.strx_ipw c)
        ∷ (23, emit Inst.ldrx_ipw c)
        ∷ [])
      c

-- The middle switch of `decode_000_mul_extraloadstore`.
unfoldable pub by_extend_mode : ExtendMode → Context → Context
by_extend_mode ExtendMode.invalid c = decode_000_mulswap c
by_extend_mode ExtendMode.sb c = if not (bit c.op 20) then inst_ldrd c else extra_load_store c
by_extend_mode _ c = extra_load_store c

-- The first part of `decode_000_mul_extraloadstore`. `rm` is the low nibble, already read, so that
-- `|` adds it to the upper one.
abbrev pub extra_mode : Context → ExtendMode
extra_mode c = extend_mode_of (field c.op 5 2)

unfoldable pub extra_offset : Context → Context
extra_offset c =
    let offset = field c.op 8 4 * 16 + c.rm in
    let c' : Context =
      if bit c.op 23
      then flag u_bit (record c { imm = offset })
      else record c { imm = neg32 offset } in
    record c' { extend_mode = extra_mode c }

unfoldable pub decode_000_mul_extraloadstore : Context → Context
decode_000_mul_extraloadstore c = by_extend_mode (extra_mode c) (extra_offset c)

unfoldable pub decode_000_regs : Context → Context
decode_000_regs c = if bit c.op 7 then decode_000_mul_extraloadstore c else data_reg_shift c
