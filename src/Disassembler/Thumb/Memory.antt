-- ===== src/Disassembler/Thumb/Memory.antt =====
-- The Thumb groups 011 to 111: loads and stores, the stack, branches and SWI.
use mathlib.Core.List.{[], ◌∷◌}
use ndse_core.Base.{ℕ, ◌+◌, ◌*◌, ◌%◌, ◌^◌, if◌then◌else◌, switch, bit, field, u32, shl32, asr32}
use ndse_core.Disassembler.{Context, Inst, Condition, ExtendMode, AddressingMode, flag, emit}
use ndse_core.Disassembler.{decode_regt, condition_of, u_bit, inst_ud}

-- `(op >> 4) & 0x7C` is four times the five-bit field at bit 6.
unfoldable pub decode_t011 : Context → Context
decode_t011 c =
    let c' : Context = record (flag u_bit c) { rd = decode_regt 0 c; rn = decode_regt 3 c } in
    let offset = field c.op 6 5 in
    switch (field c.op 11 2)
      ((0, emit Inst.str_ip (record c' { imm = offset * 4 }))
        ∷ (1, emit Inst.ldr_ip (record c' { imm = offset * 4 }))
        ∷ (2, emit Inst.strb_ip (record c' { imm = offset }))
        ∷ (3, emit Inst.ldrb_ip (record c' { imm = offset }))
        ∷ [])
      c'

unfoldable pub decode_t1001_loadstore_stack : Context → Context
decode_t1001_loadstore_stack c =
    emit (if bit c.op 11 then Inst.ldr_ip else Inst.str_ip)
      (record (flag u_bit c) { imm = c.op % 256 * 4; rd = decode_regt 8 c; rn = 13 })

-- `(op >> 5) & 0x3E` is twice the five-bit field at bit 6.
unfoldable pub decode_t100 : Context → Context
decode_t100 c =
    if bit c.op 12
    then decode_t1001_loadstore_stack c
    else emit (if bit c.op 11 then Inst.ldrx_ip else Inst.strx_ip) (record (flag u_bit c) {
      rd = decode_regt 0 c;
      rn = decode_regt 3 c;
      imm = field c.op 6 5 * 2;
      extend_mode = ExtendMode.h;
    })

-- The low byte has no bit 14 or 15, so the mask bits of LR and PC are added to it.
unfoldable pub decode_t1011_misc : Context → Context
decode_t1011_misc c =
    let c' : Context = record c { imm = c.op % 256 } in
    let sp : Context = record c { imm = c.op % 128 * 4; rd = 13; rn = 13 } in
    let push = λ (mask : ℕ).
      emit Inst.stm_w (record c { imm = mask; addressing_mode = AddressingMode.db; rn = 13 }) in
    let pop = λ (mask : ℕ).
      emit Inst.ldm_w (record c { imm = mask; addressing_mode = AddressingMode.ia; rn = 13 }) in
    switch (field c.op 8 4)
      ((0, emit (if bit c.op 7 then Inst.sub_i else Inst.add_i) sp)
        ∷ (5, push (c.op % 256 + 2 ^ 14))
        ∷ (4, push (c.op % 256))
        ∷ (13, pop (c.op % 256 + 2 ^ 15))
        ∷ (12, pop (c.op % 256))
        ∷ (14, emit Inst.bkpt c')
        ∷ [])
      (inst_ud c')

unfoldable pub decode_t1010_add_sp_pc : Context → Context
decode_t1010_add_sp_pc c =
    emit Inst.add_i
      (record c { rd = decode_regt 8 c; imm = c.op % 256 * 4; rn = if bit c.op 11 then 13 else 15 })

unfoldable pub decode_t101 : Context → Context
decode_t101 c = if bit c.op 12 then decode_t1011_misc c else decode_t1010_add_sp_pc c

-- The switch on the condition: AL is undefined, NV is SWI, and the rest branch.
abbrev bcond : Condition → Context → Context
bcond Condition.al c = inst_ud c
bcond Condition.nv c = emit Inst.swi (record c { imm = c.op % 256 })
bcond _ c = emit Inst.b (record c { imm = u32 (c.addr + asr32 (shl32 (c.op % 256) 24) 23 + 4) })

unfoldable pub decode_t1101_bcond_swi : Context → Context
decode_t1101_bcond_swi c =
    let condition = condition_of (field c.op 8 4) in bcond condition (record c { cond = condition })

unfoldable pub decode_t1100_loadstore_multiple : Context → Context
decode_t1100_loadstore_multiple c =
    emit (if bit c.op 11 then Inst.ldm_w else Inst.stm_w)
      (record c { rn = decode_regt 8 c; imm = c.op % 256; addressing_mode = AddressingMode.ia })

unfoldable pub decode_t110 : Context → Context
decode_t110 c = if bit c.op 12 then decode_t1101_bcond_swi c else decode_t1100_loadstore_multiple c

unfoldable pub decode_t111 : Context → Context
decode_t111 c =
    let low = c.op % 2 ^ 11 in
    let c' : Context = record c { imm = low } in
    switch (field c.op 11 2)
      ((0, emit Inst.b (record c { imm = u32 (c.addr + 4 + asr32 (shl32 low 21) 20) }))
        ∷ (1, if bit c.op 0 then inst_ud c' else emit Inst.blx_i (record c { imm = low * 2 }))
        ∷ (2, emit Inst.bpre (record c { imm = u32 (c.addr + 4 + asr32 (shl32 low 21) 9) }))
        ∷ (3, emit Inst.bl (record c { imm = low * 2 }))
        ∷ [])
      c'
