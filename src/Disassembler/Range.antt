-- ===== src/Disassembler/Range.antt =====
-- Range of the operands that the decoder of Core/Disassembler.h produces.
pub mod Data
pub mod Multiply
pub mod Memory
pub mod Thumb
pub mod Decode
use ndse_core.Base.{ℕ, ◌<◌, ◌^◌, Bool, true, false, if◌then◌else◌, arith}
use ndse_core.Disassembler.{Context, flag}

-- The operands fit the fields that their users index with: 16 registers, 16 coprocessors, words.
pub record IsInRange (c : Context) : Type 0 where
  pub rd_in : c.rd < 16
  pub rn_in : c.rn < 16
  pub rm_in : c.rm < 16
  pub rs_in : c.rs < 16
  pub imm_in : c.imm < 2 ^ 32
  pub cp_num_in : c.cp_num < 16
  pub cp_op1_in : c.cp_op1 < 16
  pub cp_op2_in : c.cp_op2 < 8

pub flag-IsInRange : (f : ℕ) {c : Context} → IsInRange c → IsInRange (flag f c)
flag-IsInRange f v = ground arith

pub flag_if-IsInRange :
    (b : Bool) (f : ℕ) {c : Context} → IsInRange c → IsInRange (if b then flag f c else c)
flag_if-IsInRange true f v = flag-IsInRange f v
flag_if-IsInRange false f v = v
