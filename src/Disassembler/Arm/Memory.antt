-- ===== src/Disassembler/Arm/Memory.antt =====
-- The ARM loads and stores, branches and coprocessor encodings, and the NV group.
use mathlib.Core.List.{[], ◌∷◌}
use ndse_core.Base.{ℕ, ◌+◌, ◌*◌, ◌%◌, ◌^◌, ◌==◌, ◌&&◌, if◌then◌else◌, switch, bit, field}
use ndse_core.Disassembler.{Context, Inst, flag, emit, decode_reg, addressing_mode_of}
use ndse_core.Disassembler.{s_bit, u_bit, inst_ud}
use ndse_core.Disassembler.Arm.Shifter.{decode_shift, decode_addressingmode2, decode_simm24}

-- `(op >> 20) & 0x17`: the bit P and, below the bit U, the bits B, W and L.
abbrev pub pbwl : ℕ → ℕ
pbwl op = field op 24 1 * 16 + field op 20 3

unfoldable pub decode_010_loadstore_imm : Context → Context
decode_010_loadstore_imm c =
    let c' = decode_addressingmode2 c in
    switch (pbwl c.op)
      ((0, emit Inst.str_i c')
        ∷ (1, emit Inst.ldr_i c')
        ∷ (2, emit Inst.str_iw c')
        ∷ (3, emit Inst.ldr_iw c')
        ∷ (4, emit Inst.strb_i c')
        ∷ (5, emit Inst.ldrb_i c')
        ∷ (6, emit Inst.strb_iw c')
        ∷ (7, emit Inst.ldrb_iw c')
        ∷ (16, emit Inst.str_ip c')
        ∷ (17, emit Inst.ldr_ip c')
        ∷ (18, emit Inst.str_ipw c')
        ∷ (19, emit Inst.ldr_ipw c')
        ∷ (20, emit Inst.strb_ip c')
        ∷ (21, emit Inst.ldrb_ip c')
        ∷ (22, emit Inst.strb_ipw c')
        ∷ (23, emit Inst.ldrb_ipw c')
        ∷ [])
      (inst_ud c')

-- The switch of `decode_011_loadstore_reg`.
unfoldable pub loadstore_reg_switch : Context → Context
loadstore_reg_switch c =
    switch (pbwl c.op)
      ((0, emit Inst.str_r c)
        ∷ (1, emit Inst.ldr_r c)
        ∷ (2, emit Inst.str_rw c)
        ∷ (3, emit Inst.ldr_rw c)
        ∷ (4, emit Inst.strb_r c)
        ∷ (5, emit Inst.ldrb_r c)
        ∷ (6, emit Inst.strb_rw c)
        ∷ (7, emit Inst.ldrb_rw c)
        ∷ (16, emit Inst.str_rp c)
        ∷ (17, emit Inst.ldr_rp c)
        ∷ (18, emit Inst.str_rpw c)
        ∷ (19, emit Inst.ldr_rpw c)
        ∷ (20, emit Inst.strb_rp c)
        ∷ (21, emit Inst.ldrb_rp c)
        ∷ (22, emit Inst.strb_rpw c)
        ∷ (23, emit Inst.ldrb_rpw c)
        ∷ [])
      (inst_ud c)

unfoldable pub decode_011_loadstore_reg : Context → Context
decode_011_loadstore_reg c =
    let up = if bit c.op 23 then flag u_bit c else c in
    let regs : Context = record up {
      rn = decode_reg 16 c;
      rd = decode_reg 12 c;
      rm = decode_reg 0 c;
    } in
    if bit c.op 4 then inst_ud c else loadstore_reg_switch (decode_shift regs)

unfoldable pub decode_100_loadstoremultiple : Context → Context
decode_100_loadstoremultiple c =
    let regs : Context = record c { rn = decode_reg 16 c; imm = c.op % 2 ^ 16 } in
    let user = if bit c.op 22 then flag s_bit regs else regs in
    let c' : Context = record user { addressing_mode = addressing_mode_of (field c.op 23 2) } in
    switch (field c.op 20 2)
      ((0, emit Inst.stm c')
        ∷ (1, emit Inst.ldm c')
        ∷ (2, emit Inst.stm_w c')
        ∷ (3, emit Inst.ldm_w c')
        ∷ [])
      c'

unfoldable pub decode_101_branch : Context → Context
decode_101_branch c = emit (if bit c.op 24 then Inst.bl else Inst.b) (decode_simm24 c)

unfoldable pub decode_110 : Context → Context
decode_110 c = inst_ud c

unfoldable pub decode_swi : Context → Context
decode_swi c = emit Inst.swi (record c { imm = c.op % 2 ^ 24 })

unfoldable pub decode_coproc : Context → Context
decode_coproc c =
    let c' : Context = record c {
      rn = decode_reg 16 c;
      rd = decode_reg 12 c;
      cp_num = decode_reg 8 c;
      rm = decode_reg 0 c;
      cp_op2 = field c.op 5 3;
    } in
    if bit c.op 4
    then emit (if bit c.op 20 then Inst.mrc else Inst.mcr) (record c' { cp_op1 = field c.op 21 3 })
    else emit Inst.ud (record c' { cp_op1 = field c.op 20 4 })

unfoldable pub decode_111 : Context → Context
decode_111 c = if bit c.op 24 then decode_swi c else decode_coproc c

-- `(op & 0x0D700000) == 0x5500000`: of the bits 27, 26, 24, 22, 21 and 20 exactly 26, 24, 22 and 20
-- are set. A match whose `rd` is not 15 goes on to `inst_ud` with the fields that were read.
unfoldable pub decode_instruction_nv : Context → Context
decode_instruction_nv c =
    let c' = decode_addressingmode2 c in
    if field c.op 26 2 == 1 && bit c.op 24 && field c.op 20 3 == 5
    then if c'.rd == 15
      then emit (if bit c.op 25 then Inst.pld_i else Inst.pld_r) c'
      else inst_ud c'
    else inst_ud c
