-- ===== src/Disassembler/Thumb/Arith.antt =====
-- The Thumb groups 000, 001 and 010: shifts, additions and data processing.
use mathlib.Core.List.{[], ◌∷◌}
use ndse_core.Base.{ℕ, ◌+◌, ◌*◌, ◌%◌, ◌==◌, if◌then◌else◌, switch, bit, field, not}
use ndse_core.Disassembler.{Context, Inst, Shift, ExtendMode, flag, emit, decode_reg, decode_regt}
use ndse_core.Disassembler.{s_bit, u_bit, s_consuming, inst_ud, inst_unknown}

-- The shift amount of LSR and ASR, where 0 stands for 32.
abbrev full_shift : ℕ → ℕ
full_shift n = if n == 0 then 32 else n

unfoldable pub decode_t000 : Context → Context
decode_t000 c =
    let c' : Context = record (flag s_bit c) {
      rd = decode_regt 0 c;
      rn = decode_regt 3 c;
      imm = 0;
      shift = Shift.lsl;
    } in
    let amount = field c.op 6 5 in
    let three : Context = record c' { rm = decode_regt 6 c } in
    switch (field c.op 11 2)
      ((0, emit Inst.mov_r (record c' { rm = c'.rn; imm = amount }))
        ∷ (
          1,
          emit Inst.mov_r (record c' { rm = c'.rn; imm = full_shift amount; shift = Shift.lsr }),
        )
        ∷ (
          2,
          emit Inst.mov_r (record c' { rm = c'.rn; imm = full_shift amount; shift = Shift.asr }),
        )
        ∷ (
          3,
          switch (field c.op 9 2)
              ((0, emit Inst.add_r three)
                ∷ (1, emit Inst.sub_r three)
                ∷ (2, emit Inst.add_i (record three { imm = three.rm }))
                ∷ (3, emit Inst.sub_i (record three { imm = three.rm }))
                ∷ [])
              (inst_ud three),
        )
        ∷ [])
      (inst_ud c')

unfoldable pub decode_t001 : Context → Context
decode_t001 c =
    let reg = decode_regt 8 c in
    let c' : Context = record (flag s_bit c) { imm = c.op % 256; rd = reg; rn = reg } in
    switch (field c.op 11 2)
      ((0, emit Inst.mov_i c')
        ∷ (1, emit Inst.cmp_i c')
        ∷ (2, emit Inst.add_i c')
        ∷ (3, emit Inst.sub_i c')
        ∷ [])
      (inst_ud c')

unfoldable pub decode_t0101_loadstore_reg : Context → Context
decode_t0101_loadstore_reg c =
    let c' : Context = record (flag u_bit c) {
      rd = decode_regt 0 c;
      rn = decode_regt 3 c;
      rm = decode_regt 6 c;
      shift = Shift.lsl;
      imm = 0;
    } in
    switch (field c.op 9 3)
      ((0, emit Inst.str_rp c')
        ∷ (1, emit Inst.strx_rp (record c' { extend_mode = ExtendMode.h }))
        ∷ (2, emit Inst.strb_rp c')
        ∷ (3, inst_ud c')
        ∷ (4, emit Inst.ldr_rp c')
        ∷ (5, emit Inst.ldrx_rp (record c' { extend_mode = ExtendMode.h }))
        ∷ (6, emit Inst.ldrb_rp c')
        ∷ (7, emit Inst.ldrx_rp (record c' { extend_mode = ExtendMode.sh }))
        ∷ [])
      (inst_ud c')

unfoldable pub decode_t01001_loadliteral : Context → Context
decode_t01001_loadliteral c =
    emit Inst.ldr_ip (record (flag u_bit c) { rd = decode_regt 8 c; imm = c.op % 256 * 4; rn = 15 })

-- `(op >> 4) & 0x8` is the bit H1, joined to the three low bits of the register.
unfoldable pub decode_t010001_sdata_b : Context → Context
decode_t010001_sdata_b c =
    let c' : Context = record c {
      rm = decode_reg 3 c;
      rd = decode_regt 0 c + field c.op 7 1 * 8;
      imm = 0;
      shift = Shift.lsl;
    } in
    switch (field c.op 8 2)
      ((0, emit Inst.add_r (record c' { rn = c'.rd }))
        ∷ (1, emit Inst.cmp_r (record c' { rn = c'.rd }))
        ∷ (2, emit Inst.mov_r c')
        ∷ (
          3,
          if not (decode_regt 0 c == 0)
              then inst_unknown c'
              else emit (if bit c.op 7 then Inst.blx else Inst.bx) c',
        )
        ∷ [])
      (inst_ud c')

-- `decode_t010000_dataproc`: the cases `rd = rd op rm`, those that shift by a register, and the rest.
unfoldable pub decode_t010000_dataproc : Context → Context
decode_t010000_dataproc c =
    let lo = decode_regt 0 c in
    let hi = decode_regt 3 c in
    let c' : Context = record (flag s_bit c) { rd = lo; rn = hi; shift = Shift.lsl; imm = 0 } in
    let two : Context = record c' { rd = lo; rn = lo; rm = hi } in
    let by_reg : Context = record c' { rd = lo; rm = lo; rs = hi } in
    let compare : Context = record c' { rn = lo; rm = hi } in
    switch (field c.op 6 4)
      ((0, emit Inst.and_r two)
        ∷ (1, emit Inst.eor_r two)
        ∷ (2, emit Inst.mov_rr by_reg)
        ∷ (3, emit Inst.mov_rr (record by_reg { shift = Shift.lsr }))
        ∷ (4, emit Inst.mov_rr (record by_reg { shift = Shift.asr }))
        ∷ (5, emit Inst.adc_r (flag s_consuming two))
        ∷ (6, emit Inst.sbc_r two)
        ∷ (7, emit Inst.mov_rr (record by_reg { shift = Shift.ror }))
        ∷ (8, emit Inst.tst_r compare)
        ∷ (9, emit Inst.rsb_i c')
        ∷ (10, emit Inst.cmp_r compare)
        ∷ (11, inst_ud c')
        ∷ (12, emit Inst.orr_r two)
        ∷ (13, emit Inst.mul_r (record c' { rd = lo; rm = hi; rs = lo }))
        ∷ (14, emit Inst.bic_r two)
        ∷ (15, emit Inst.mvn_r (record c' { rd = lo; rm = hi }))
        ∷ [])
      (inst_ud c')

unfoldable pub decode_t010 : Context → Context
decode_t010 c =
    if bit c.op 12
    then decode_t0101_loadstore_reg c
    else if bit c.op 11
    then decode_t01001_loadliteral c
    else if bit c.op 10
    then decode_t010001_sdata_b c
    else decode_t010000_dataproc c
