-- ===== src/Disassembler/Range/Data.antt =====
-- The shifter operands and the data-processing group of the ARM decoder.
use ndse_core.Base.{◌%◌, ◌*◌, arith, field, bit}
use ndse_core.Base.Pow.{rotr32-lt}
use ndse_core.Disassembler.{Context, s_bit, decode_reg}
use ndse_core.Disassembler.Range.{IsInRange, flag_if-IsInRange}
use ndse_core.Disassembler.Arm.Shifter.{decode_shift}
use ndse_core.Disassembler.Arm.Shifter.{decode_shift_reg, decode_simm24, decode_imm_shifter}
use ndse_core.Disassembler.Arm.Shifter.{decode_addressingmode2}
use ndse_core.Disassembler.Arm.Data.{misc_branch, misc_status, misc_blx, misc_bkpt, decode_misc}
use ndse_core.Disassembler.Arm.Data.{decode_misc2, data_reg_shift, decode_000_imms}
use ndse_core.Disassembler.Arm.Data.{decode_001_data_imm}
use ndse_core.Disassembler.Operands.{SameOperands-IsInRange, decode_001_data_imm-SameOperands}

pub decode_shift-IsInRange : {c : Context} → IsInRange c → IsInRange (decode_shift c)
unfolding decode_shift
decode_shift-IsInRange v = ground arith

decode_shift_reg-IsInRange : {c : Context} → IsInRange c → IsInRange (decode_shift_reg c)
unfolding decode_shift_reg
decode_shift_reg-IsInRange v = ground arith

pub decode_simm24-IsInRange : {c : Context} → IsInRange c → IsInRange (decode_simm24 c)
unfolding decode_simm24
decode_simm24-IsInRange v = ground arith

decode_imm_shifter-IsInRange : {c : Context} → IsInRange c → IsInRange (decode_imm_shifter c)
unfolding decode_imm_shifter
decode_imm_shifter-IsInRange {c} v = ground (arith, rotr32-lt (c.op % 256) (2 * field c.op 8 4))

pub decode_addressingmode2-IsInRange :
    {c : Context} → IsInRange c → IsInRange (decode_addressingmode2 c)
unfolding decode_addressingmode2
decode_addressingmode2-IsInRange v = ground arith

misc_branch-IsInRange : {c : Context} → IsInRange c → IsInRange (misc_branch c)
unfolding misc_branch
misc_branch-IsInRange v = ground arith

misc_status-IsInRange : {c : Context} → IsInRange c → IsInRange (misc_status c)
unfolding misc_status
misc_status-IsInRange v = ground (arith, misc_branch-IsInRange v)

misc_blx-IsInRange : {c : Context} → IsInRange c → IsInRange (misc_blx c)
unfolding misc_blx
misc_blx-IsInRange v = ground arith

misc_bkpt-IsInRange : {c : Context} → IsInRange c → IsInRange (misc_bkpt c)
unfolding misc_bkpt
misc_bkpt-IsInRange v = ground arith

decode_misc-IsInRange : {c : Context} → IsInRange c → IsInRange (decode_misc c)
unfolding decode_misc
decode_misc-IsInRange v = ground (
  arith,
  misc_status-IsInRange v,
  misc_branch-IsInRange v,
  misc_blx-IsInRange v,
  misc_bkpt-IsInRange v,
)

pub data_reg_shift-IsInRange : {c : Context} → IsInRange c → IsInRange (data_reg_shift c)
unfolding data_reg_shift
data_reg_shift-IsInRange {c} v =
    let w = decode_shift_reg-IsInRange (flag_if-IsInRange (bit c.op 20) s_bit v) in
    ground (arith, w, decode_misc-IsInRange w)

decode_misc2-IsInRange : {c : Context} → IsInRange c → IsInRange (decode_misc2 c)
unfolding decode_misc2
decode_misc2-IsInRange {c} v =
    decode_misc-IsInRange {c = record c { rs = decode_reg 8 c }} (ground arith)

pub decode_000_imms-IsInRange : {c : Context} → IsInRange c → IsInRange (decode_000_imms c)
unfolding decode_000_imms
decode_000_imms-IsInRange {c} v =
    let w = decode_shift-IsInRange (flag_if-IsInRange (bit c.op 20) s_bit v) in
    ground (arith, w, decode_misc2-IsInRange w)

pub decode_001_data_imm-IsInRange : {c : Context} → IsInRange c → IsInRange (decode_001_data_imm c)
decode_001_data_imm-IsInRange {c} v =
    let fields : Context = record c { rn = decode_reg 16 c; rd = decode_reg 12 c } in
    let w : IsInRange fields = ground arith in
    SameOperands-IsInRange (decode_001_data_imm-SameOperands c) (decode_imm_shifter-IsInRange w)
