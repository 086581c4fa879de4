-- ===== src/Disassembler/Operands.antt =====
-- Which parts of the context the last switch of an ARM data-processing decoder leaves alone
-- (Core/Disassembler.h).
use ndse_core.Base.{Bool, true, false, bit, ◌≡◌, refl, switch-holds, if-holds, if◌then◌else◌}
use ndse_core.Base.{not, ◌&◌, arith, ℕ, RowsHold, ◌==◌, field}
use ndse_core.Disassembler.{Context, Inst, flag, s_bit, decode_reg, inst_ud}
use ndse_core.Disassembler.Arm.Data.{data_imm_cases, decode_001_data_imm}
use ndse_core.Disassembler.Arm.Shifter.{decode_imm_shifter}
use ndse_core.Disassembler.Range.{IsInRange}

-- The same word, condition, registers and immediate.
pub record SameOperands (d c : Context) : Type 0 where
  pub same_op : d.op ≡ c.op
  pub same_cond : d.cond ≡ c.cond
  pub same_rd : d.rd ≡ c.rd
  pub same_rn : d.rn ≡ c.rn
  pub same_rm : d.rm ≡ c.rm
  pub same_rs : d.rs ≡ c.rs
  pub same_imm : d.imm ≡ c.imm
  pub same_cp_num : d.cp_num ≡ c.cp_num
  pub same_cp_op1 : d.cp_op1 ≡ c.cp_op1
  pub same_cp_op2 : d.cp_op2 ≡ c.cp_op2

same_emit :
    {c : Context} {i : Inst} {f : ℕ} → SameOperands (record c { instruction = i; flags = f }) c
same_emit = record {
  same_op = refl;
  same_cond = refl;
  same_rd = refl;
  same_rn = refl;
  same_rm = refl;
  same_rs = refl;
  same_imm = refl;
  same_cp_num = refl;
  same_cp_op1 = refl;
  same_cp_op2 = refl;
}

same_trans : {a b c : Context} → SameOperands a b → SameOperands b c → SameOperands a c
same_trans p q = ground arith

data_imm_cases-SameOperands :
    (sbit : Bool) (c : Context)
    → RowsHold (λ d. SameOperands d c) (data_imm_cases sbit c) (inst_ud c)
unfolding data_imm_cases
data_imm_cases-SameOperands true c =
    same_emit & same_emit & same_emit & same_emit & same_emit & same_emit & same_emit & same_emit
    & same_emit & same_emit & same_emit & same_emit & same_emit & same_emit & same_emit & same_emit
    & same_emit
data_imm_cases-SameOperands false c =
    same_emit
    & same_emit
    & same_emit
    & same_emit
    & same_emit
    & same_emit
    & same_emit
    & same_emit
    & same_emit
    & if-holds (λ d. SameOperands d c) (not (c.rd == 15)) same_emit same_emit
    & same_emit
    & if-holds (λ d. SameOperands d c) (not (c.rd == 0)) same_emit same_emit
    & same_emit
    & same_emit
    & same_emit
    & same_emit
    & same_emit

pub flag_if-SameOperands :
    (b : Bool) (f : ℕ) (c : Context) → SameOperands (if b then flag f c else c) c
flag_if-SameOperands true f c = same_emit
flag_if-SameOperands false f c = same_emit

-- `decode_001_data_imm` keeps the fields and the immediate that it decodes first.
pub decode_001_data_imm-SameOperands :
    (c : Context)
    → SameOperands
        (decode_001_data_imm c)
        (decode_imm_shifter (record c { rn = decode_reg 16 c; rd = decode_reg 12 c }))
unfolding decode_001_data_imm
decode_001_data_imm-SameOperands c =
    let fields : Context = record c { rn = decode_reg 16 c; rd = decode_reg 12 c } in
    let d = decode_imm_shifter fields in
    let sbit = bit c.op 20 in
    let e = if sbit then flag s_bit d else d in
    same_trans
      (switch-holds (λ x. SameOperands x e) (field e.op 21 4) (data_imm_cases sbit e) (inst_ud e)
        (data_imm_cases-SameOperands sbit e))
      (flag_if-SameOperands sbit s_bit d)

pub SameOperands-IsInRange : {d c : Context} → SameOperands d c → IsInRange c → IsInRange d
SameOperands-IsInRange e v = ground arith
