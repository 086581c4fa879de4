-- ===== src/Disassembler.antt =====
-- The instruction decoder of Core/Disassembler.h: the codes that it produces and the context that it
-- fills in. Child modules hold the ARM and the Thumb decoder.
pub mod Arm
pub mod Thumb
pub mod Decode
pub mod Range
pub mod Encode
pub mod Operands
pub mod Roundtrip
pub mod Fresh
mod Tests
use Prim.Native.Nat.{ℕ, bit_or}
use mathlib.Core.Bool.{Bool, true, false}
use mathlib.Core.List.{[], ◌∷◌}
use ndse_core.Base.{switch, field}

-- `INST::CODE`, less the count that ends the list.
pub data Inst : Type 0 where
  ud debug unknown str_i ldr_i str_iw ldr_iw strb_i ldrb_i strb_iw ldrb_iw str_ip ldr_ip : Inst
  str_ipw ldr_ipw strb_ip ldrb_ip strb_ipw ldrb_ipw str_r ldr_r str_rw ldr_rw strb_r ldrb_r : Inst
  strb_rw ldrb_rw str_rp ldr_rp str_rpw ldr_rpw strb_rp ldrb_rp strb_rpw ldrb_rpw and_i : Inst
  eor_i sub_i rsb_i add_i adc_i sbc_i rsc_i tst_i teq_i cmp_i cmn_i orr_i mov_i bic_i mvn_i : Inst
  msr_cpsr_i msr_spsr_i and_r eor_r sub_r rsb_r add_r adc_r sbc_r rsc_r tst_r teq_r cmp_r : Inst
  cmn_r orr_r mov_r bic_r mvn_r and_rr eor_rr sub_rr rsb_rr add_rr adc_rr sbc_rr rsc_rr : Inst
  tst_rr teq_rr cmp_rr cmn_rr orr_rr mov_rr bic_rr mvn_rr msr_cpsr_r msr_spsr_r mrs_cpsr : Inst
  mrs_spsr clz bkpt swi bx blx b bl mrc mcr stm ldm stm_w ldm_w strx_i ldrx_i strx_iw : Inst
  ldrx_iw strx_ip ldrx_ip strx_ipw ldrx_ipw strx_r ldrx_r strx_rw ldrx_rw strx_rp ldrx_rp : Inst
  strx_rpw ldrx_rpw bpre mul_r mla_r umull umlal smull smlal swp swpb blx_i ldrd_r ldrd_rw : Inst
  ldrd_ri ldrd_riw ldrd_rp ldrd_rpw ldrd_rip ldrd_ripw pld_i pld_r : Inst

-- `CONDITION::CODE`
pub data Condition : Type 0 where
  eq ne cs cc mi pl vs vc hi ls ge lt gt le al nv : Condition

-- `SHIFT::CODE`
pub data Shift : Type 0 where
  lsl lsr asr ror rrx : Shift

-- `EXTEND_MODE::CODE`
pub data ExtendMode : Type 0 where
  invalid h sb sh : ExtendMode

-- `ADDRESSING_MODE::CODE`
pub data AddressingMode : Type 0 where
  da ia db ib : AddressingMode

-- `(CONDITION::CODE)x` for a four-bit `x`.
unfoldable pub condition_of : ℕ → Condition
condition_of x =
    switch x
      ((0, Condition.eq)
        ∷ (1, Condition.ne)
        ∷ (2, Condition.cs)
        ∷ (3, Condition.cc)
        ∷ (4, Condition.mi)
        ∷ (5, Condition.pl)
        ∷ (6, Condition.vs)
        ∷ (7, Condition.vc)
        ∷ (8, Condition.hi)
        ∷ (9, Condition.ls)
        ∷ (10, Condition.ge)
        ∷ (11, Condition.lt)
        ∷ (12, Condition.gt)
        ∷ (13, Condition.le)
        ∷ (14, Condition.al)
        ∷ [])
      Condition.nv

-- `(SHIFT::CODE)x` for a two-bit `x`; `RRX` is never the result of such a cast.
abbrev pub shift_of : ℕ → Shift
shift_of x = switch x ((0, Shift.lsl) ∷ (1, Shift.lsr) ∷ (2, Shift.asr) ∷ []) Shift.ror

-- `(EXTEND_MODE::CODE)x` for a two-bit `x`.
abbrev pub extend_mode_of : ℕ → ExtendMode
extend_mode_of x =
    switch x ((0, ExtendMode.invalid) ∷ (1, ExtendMode.h) ∷ (2, ExtendMode.sb) ∷ []) ExtendMode.sh

-- `(ADDRESSING_MODE::CODE)x` for a two-bit `x`.
abbrev pub addressing_mode_of : ℕ → AddressingMode
addressing_mode_of x =
    switch x ((0, AddressingMode.da) ∷ (1, AddressingMode.ia) ∷ (2, AddressingMode.db) ∷ [])
      AddressingMode.ib

abbrev pub is_al : Condition → Bool
is_al Condition.al = true
is_al _ = false

abbrev pub is_nv : Condition → Bool
is_nv Condition.nv = true
is_nv _ = false

-- `disassembler::context`, less the fields that only the printer uses.
pub record Context : Type 0 where
  pub instruction : Inst
  pub cond : Condition
  pub shift : Shift
  pub addressing_mode : AddressingMode
  pub extend_mode : ExtendMode
  pub flags : ℕ
  pub imm : ℕ
  pub rd : ℕ
  pub rn : ℕ
  pub rm : ℕ
  pub rs : ℕ
  pub cp_num : ℕ
  pub cp_op1 : ℕ
  pub cp_op2 : ℕ
  pub op : ℕ
  pub addr : ℕ

-- The bits of `flags`.
abbrev pub s_bit : ℕ
s_bit = 1

abbrev pub u_bit : ℕ
u_bit = 2

abbrev pub s_consuming : ℕ
s_consuming = 8

-- `ctx.flags |= f`
abbrev pub flag : ℕ → Context → Context
flag f c = record c { flags = bit_or c.flags f }

-- `ctx.instruction = i`
abbrev pub emit : Inst → Context → Context
emit i c = record c { instruction = i }

abbrev pub inst_ud : Context → Context
inst_ud c = emit Inst.ud c

abbrev pub inst_debug : Context → Context
inst_debug c = emit Inst.debug c

abbrev pub inst_unknown : Context → Context
inst_unknown c = emit Inst.unknown c

-- `decode_reg<n>()`
abbrev pub decode_reg : ℕ → Context → ℕ
decode_reg n c = field c.op n 4

-- `decode_regt<n>()`
abbrev pub decode_regt : ℕ → Context → ℕ
decode_regt n c = field c.op n 3
