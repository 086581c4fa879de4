-- ===== src/Disassembler/Arm/Data.antt =====
-- The ARM data-processing group: `decode_misc`, `decode_000_imms` and `decode_001_data_imm`.
use Prim.Native.Nat.{ℕ}
use mathlib.Core.List.{List, [], ◌∷◌}
use mathlib.Core.Bool.{Bool, not, ◌||◌}
use ndse_core.Base.{◌==◌, if◌then◌else◌, switch, bit, field, ◌+◌, ◌*◌, ◌%◌}
use ndse_core.Disassembler.{Context, Inst, flag, emit, is_al, decode_reg, s_bit, s_consuming}
use ndse_core.Disassembler.{inst_ud, inst_debug, inst_unknown}
use ndse_core.Disassembler.Arm.Shifter.{decode_shift, decode_shift_reg, decode_imm_shifter}

-- Case 0x1 of `decode_misc`, into which case 0x0 falls when its own switch has no match.
unfoldable pub misc_branch : Context → Context
misc_branch c =
    if not (c.rn == 15) || not (c.rs == 15)
    then inst_unknown c
    else switch (field c.op 21 2)
        ((1, if not (c.rd == 15) then inst_unknown c else emit Inst.bx c)
          ∷ (3, emit Inst.clz c)
          ∷ [])
        (inst_ud c)

-- Case 0x0 of `decode_misc`: the moves between a register and a status register.
unfoldable pub misc_status : Context → Context
misc_status c =
    if not (c.rs == 0)
    then inst_unknown c
    else switch (field c.op 21 2)
        ((0, if not (c.rn == 15) then inst_unknown c else emit Inst.mrs_cpsr c)
          ∷ (1, if not (c.rd == 15) then inst_unknown c else emit Inst.msr_cpsr_r c)
          ∷ (2, if not (c.rn == 15) then inst_unknown c else emit Inst.mrs_spsr c)
          ∷ (3, if not (c.rd == 15) then inst_unknown c else emit Inst.msr_spsr_r c)
          ∷ [])
        (misc_branch c)

-- Case 0x3 of `decode_misc`.
unfoldable pub misc_blx : Context → Context
misc_blx c =
    if not (field c.op 21 2 == 1)
    then inst_ud c
    else if not (c.rn == 15) || not (c.rd == 15) || not (c.rs == 15)
    then inst_unknown c
    else emit Inst.blx c

-- Case 0x7 of `decode_misc`: the software breakpoint.
unfoldable pub misc_bkpt : Context → Context
misc_bkpt c =
    if not (field c.op 21 2 == 1)
    then inst_ud c
    else if not (is_al c.cond)
    then inst_unknown c
    else inst_debug (emit Inst.bkpt (record c { imm = field c.op 8 12 * 16 + c.op % 16 }))

unfoldable pub decode_misc : Context → Context
decode_misc c =
    if bit c.op 7
    then inst_ud c
    else switch (field c.op 4 3)
        ((0, misc_status c)
          ∷ (1, misc_branch c)
          ∷ (2, inst_ud c)
          ∷ (3, misc_blx c)
          ∷ (4, inst_ud c)
          ∷ (5, inst_ud c)
          ∷ (6, inst_ud c)
          ∷ (7, misc_bkpt c)
          ∷ [])
        c

unfoldable pub decode_misc2 : Context → Context
decode_misc2 c = decode_misc (record c { rs = decode_reg 8 c })

-- The switch of `decode_000_regs` on the opcode.
unfoldable pub data_reg_shift : Context → Context
data_reg_shift c =
    let sbit = bit c.op 20 in
    let c' = decode_shift_reg (if sbit then flag s_bit c else c) in
    switch (field c.op 21 4)
      ((0, emit Inst.and_rr c')
        ∷ (1, emit Inst.eor_rr c')
        ∷ (2, emit Inst.sub_rr c')
        ∷ (3, emit Inst.rsb_rr c')
        ∷ (4, emit Inst.add_rr c')
        ∷ (5, emit Inst.adc_rr (flag s_consuming c'))
        ∷ (6, emit Inst.sbc_rr (flag s_consuming c'))
        ∷ (7, emit Inst.rsc_rr c')
        ∷ (8, if sbit then emit Inst.tst_rr c' else decode_misc c')
        ∷ (9, if sbit then emit Inst.teq_rr c' else decode_misc c')
        ∷ (10, if sbit then emit Inst.cmp_rr c' else decode_misc c')
        ∷ (11, if sbit then emit Inst.cmn_rr c' else decode_misc c')
        ∷ (12, emit Inst.orr_rr c')
        ∷ (13, emit Inst.mov_rr c')
        ∷ (14, emit Inst.bic_rr c')
        ∷ (15, emit Inst.mvn_rr c')
        ∷ [])
      c'

-- `decode_000_imms`
unfoldable pub decode_000_imms : Context → Context
decode_000_imms c =
    let sbit = bit c.op 20 in
    let c' = decode_shift (if sbit then flag s_bit c else c) in
    switch (field c.op 21 4)
      ((0, emit Inst.and_r c')
        ∷ (1, emit Inst.eor_r c')
        ∷ (2, emit Inst.sub_r c')
        ∷ (3, emit Inst.rsb_r c')
        ∷ (4, emit Inst.add_r c')
        ∷ (5, emit Inst.adc_r (flag s_consuming c'))
        ∷ (6, emit Inst.sbc_r (flag s_consuming c'))
        ∷ (7, emit Inst.rsc_r c')
        ∷ (8, if sbit then emit Inst.tst_r c' else decode_misc2 c')
        ∷ (9, if sbit then emit Inst.teq_r c' else decode_misc2 c')
        ∷ (10, if sbit then emit Inst.cmp_r c' else decode_misc2 c')
        ∷ (11, if sbit then emit Inst.cmn_r c' else decode_misc2 c')
        ∷ (12, emit Inst.orr_r c')
        ∷ (13, emit Inst.mov_r c')
        ∷ (14, emit Inst.bic_r c')
        ∷ (15, emit Inst.mvn_r c')
        ∷ [])
      c'

-- The cases of the switch of `decode_001_data_imm` on the opcode.
unfoldable pub data_imm_cases : Bool → Context → List (ℕ × Context)
data_imm_cases sbit c =
    (0, emit Inst.and_i c)
    ∷ (1, emit Inst.eor_i c)
    ∷ (2, emit Inst.sub_i c)
    ∷ (3, emit Inst.rsb_i c)
    ∷ (4, emit Inst.add_i c)
    ∷ (5, emit Inst.adc_i (flag s_consuming c))
    ∷ (6, emit Inst.sbc_i (flag s_consuming c))
    ∷ (7, emit Inst.rsc_i c)
    ∷ (8, if sbit then emit Inst.tst_i c else inst_ud c)
    ∷ (
      9,
      if sbit
          then emit Inst.teq_i c
          else if not (c.rd == 15)
          then inst_unknown c
          else emit Inst.msr_cpsr_i c,
    )
    ∷ (10, if sbit then emit Inst.cmp_i c else inst_ud c)
    ∷ (
      11,
      if sbit
          then emit Inst.cmn_i c
          else if not (c.rd == 0)
          then inst_unknown c
          else emit Inst.msr_spsr_i c,
    )
    ∷ (12, emit Inst.orr_i c)
    ∷ (13, emit Inst.mov_i c)
    ∷ (14, emit Inst.bic_i c)
    ∷ (15, emit Inst.mvn_i c)
    ∷ []

unfoldable pub decode_001_data_imm : Context → Context
decode_001_data_imm c =
    let fields : Context = record c { rn = decode_reg 16 c; rd = decode_reg 12 c } in
    let shifted = decode_imm_shifter fields in
    let sbit = bit c.op 20 in
    let c' = if sbit then flag s_bit shifted else shifted in
    switch (field c'.op 21 4) (data_imm_cases sbit c') (inst_ud c')
