-- ===== src/Disassembler/Fresh/Data.antt =====
-- The data-processing group of the ARM decoder sets the instruction on every path, from the
-- instruction word, the condition and the registers that were read from it.
use ndse_core.Base.{◌≡◌, arith, bit, if◌then◌else◌}
use ndse_core.Base.{Bool, switch, ℕ, ap, ap₂, sym, ◌∙◌, field}
use ndse_core.Disassembler.{Inst, inst_ud, Context, flag, s_bit, decode_reg}
use ndse_core.Disassembler.Operands.{flag_if-SameOperands}
use ndse_core.Disassembler.Arm.Data.{misc_branch, misc_status, misc_blx, misc_bkpt, decode_misc}
use ndse_core.Disassembler.Arm.Data.{decode_misc2, data_reg_shift, decode_000_imms}
use ndse_core.Disassembler.Arm.Data.{data_imm_cases, decode_001_data_imm}
use ndse_core.Disassembler.Arm.Shifter.{decode_shift_reg, decode_shift, decode_imm_shifter}

-- The fields that the decoder tests agree, but for `rs`.
pub record Agree (c d : Context) : Type 0 where
  pub same_op : c.op ≡ d.op
  pub same_cond : c.cond ≡ d.cond
  pub same_rd : c.rd ≡ d.rd
  pub same_rn : c.rn ≡ d.rn

misc_branch-same :
    {c d : Context}
    → Agree c d
    → c.rs ≡ d.rs
    → (misc_branch c).instruction ≡ (misc_branch d).instruction
unfolding misc_branch
misc_branch-same a s = ground arith

misc_status-same :
    {c d : Context}
    → Agree c d
    → c.rs ≡ d.rs
    → (misc_status c).instruction ≡ (misc_status d).instruction
unfolding misc_status
misc_status-same a s = ground (arith, misc_branch-same a s)

misc_blx-same :
    {c d : Context} → Agree c d → c.rs ≡ d.rs → (misc_blx c).instruction ≡ (misc_blx d).instruction
unfolding misc_blx
misc_blx-same a s = ground arith

misc_bkpt-same :
    {c d : Context}
    → Agree c d
    → c.rs ≡ d.rs
    → (misc_bkpt c).instruction ≡ (misc_bkpt d).instruction
unfolding misc_bkpt
misc_bkpt-same a s = ground arith

decode_misc-same :
    {c d : Context}
    → Agree c d
    → c.rs ≡ d.rs
    → (decode_misc c).instruction ≡ (decode_misc d).instruction
unfolding decode_misc
decode_misc-same a s =
    ground
      (arith, misc_status-same a s, misc_branch-same a s, misc_blx-same a s, misc_bkpt-same a s)

-- What `decode_000_regs` does before its switch, and `decode_000_imms`.
abbrev with_shift_reg : Context → Context
with_shift_reg c = decode_shift_reg (if bit c.op 20 then flag s_bit c else c)

abbrev with_shift : Context → Context
with_shift c = decode_shift (if bit c.op 20 then flag s_bit c else c)

with_shift_reg-Agree :
    {c d : Context}
    → Agree c d
    → Agree (with_shift_reg c) (with_shift_reg d) × ((with_shift_reg c).rs ≡ (with_shift_reg d).rs)
unfolding decode_shift_reg
with_shift_reg-Agree a = (ground arith, ground arith)

with_shift-Agree : {c d : Context} → Agree c d → Agree (with_shift c) (with_shift d)
unfolding decode_shift
with_shift-Agree a = ground arith

decode_misc2-same :
    {c d : Context} → Agree c d → (decode_misc2 c).instruction ≡ (decode_misc2 d).instruction
unfolding decode_misc2
decode_misc2-same {c} {d} a =
    decode_misc-same {c = record c { rs = decode_reg 8 c }} {d = record d { rs = decode_reg 8 d }}
      (ground arith) (ground arith)

pub data_reg_shift-same :
    {c d : Context} → Agree c d → (data_reg_shift c).instruction ≡ (data_reg_shift d).instruction
unfolding data_reg_shift
data_reg_shift-same a = let w = with_shift_reg-Agree a in ground (arith, decode_misc-same w.0 w.1)

pub decode_000_imms-same :
    {c d : Context} → Agree c d → (decode_000_imms c).instruction ≡ (decode_000_imms d).instruction
unfolding decode_000_imms
decode_000_imms-same a = ground (arith, decode_misc2-same (with_shift-Agree a))

data_imm_cases-same :
    (sbit : Bool) (opcode : ℕ) (c d : Context)
    → c.rd ≡ d.rd
    → (switch opcode (data_imm_cases sbit c) (inst_ud c)).instruction
      ≡ (switch opcode (data_imm_cases sbit d) (inst_ud d)).instruction
unfolding data_imm_cases
data_imm_cases-same sbit opcode c d e = ground arith

pub decode_001_data_imm-same :
    (c d : Context)
    → c.op ≡ d.op
    → (decode_001_data_imm c).instruction ≡ (decode_001_data_imm d).instruction
unfolding decode_001_data_imm decode_imm_shifter
decode_001_data_imm-same c d e =
    let operands : Context → Context =
      λ x. decode_imm_shifter (record x { rn = decode_reg 16 x; rd = decode_reg 12 x }) in
    let sc = flag_if-SameOperands (bit c.op 20) s_bit (operands c) in
    let sd = flag_if-SameOperands (bit d.op 20) s_bit (operands d) in
    let x = if bit c.op 20 then flag s_bit (operands c) else operands c in
    let y = if bit d.op 20 then flag s_bit (operands d) else operands d in
    let result : Bool → ℕ → Inst =
      λ b o. (switch (field o 21 4) (data_imm_cases b y) (inst_ud y)).instruction in
    data_imm_cases-same (bit c.op 20) (field x.op 21 4) x y
      (sc.same_rd ∙ ap (λ o. field o 12 4) e ∙ sym sd.same_rd)
    ∙ ap₂ result (ap (λ o. bit o 20) e) (sc.same_op ∙ e ∙ sym sd.same_op)
