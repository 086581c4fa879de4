-- ===== src/Disassembler/Range/Multiply.antt =====
-- The multiplies, swaps and extra loads and stores of the ARM decoder.
use ndse_core.Base.{bit, arith}
use ndse_core.Disassembler.{Context, ExtendMode, s_bit, decode_reg}
use ndse_core.Disassembler.Range.{IsInRange, flag_if-IsInRange}
use ndse_core.Disassembler.Range.Data.{data_reg_shift-IsInRange}
use ndse_core.Disassembler.Arm.Multiply.{inst_ldrd, decode_00000_mula, decode_00001_mulal}
use ndse_core.Disassembler.Arm.Multiply.{decode_00010_swap, decode_000_mulswap, extra_load_store}
use ndse_core.Disassembler.Arm.Multiply.{
  extra_offset, extra_mode, by_extend_mode, decode_000_mul_extraloadstore,
}
use ndse_core.Disassembler.Arm.Multiply.{decode_000_regs}

inst_ldrd-IsInRange : {c : Context} → IsInRange c → IsInRange (inst_ldrd c)
unfolding inst_ldrd
inst_ldrd-IsInRange v = ground arith

decode_00000_mula-IsInRange : {c : Context} → IsInRange c → IsInRange (decode_00000_mula c)
unfolding decode_00000_mula
decode_00000_mula-IsInRange {c} v =
    let regs : Context = record c {
      rs = decode_reg 8 c;
      rn = decode_reg 12 c;
      rd = decode_reg 16 c;
    } in
    let w : IsInRange regs = ground arith in ground (arith, flag_if-IsInRange (bit c.op 20) s_bit w)

decode_00001_mulal-IsInRange : {c : Context} → IsInRange c → IsInRange (decode_00001_mulal c)
unfolding decode_00001_mulal
decode_00001_mulal-IsInRange {c} v = ground arith

decode_00010_swap-IsInRange : {c : Context} → IsInRange c → IsInRange (decode_00010_swap c)
unfolding decode_00010_swap
decode_00010_swap-IsInRange v = ground arith

decode_000_mulswap-IsInRange : {c : Context} → IsInRange c → IsInRange (decode_000_mulswap c)
unfolding decode_000_mulswap
decode_000_mulswap-IsInRange v = ground (
  arith,
  decode_00000_mula-IsInRange v,
  decode_00001_mulal-IsInRange v,
  decode_00010_swap-IsInRange v,
)

extra_load_store-IsInRange : {c : Context} → IsInRange c → IsInRange (extra_load_store c)
unfolding extra_load_store
extra_load_store-IsInRange v = ground arith

by_extend_mode-IsInRange :
    (mode : ExtendMode) {c : Context} → IsInRange c → IsInRange (by_extend_mode mode c)
unfolding by_extend_mode
by_extend_mode-IsInRange ExtendMode.invalid v = decode_000_mulswap-IsInRange v
by_extend_mode-IsInRange ExtendMode.sb v =
    ground (arith, inst_ldrd-IsInRange v, extra_load_store-IsInRange v)
by_extend_mode-IsInRange ExtendMode.h v = extra_load_store-IsInRange v
by_extend_mode-IsInRange ExtendMode.sh v = extra_load_store-IsInRange v

extra_offset-IsInRange : {c : Context} → IsInRange c → IsInRange (extra_offset c)
unfolding extra_offset
extra_offset-IsInRange v = ground arith

decode_000_mul_extraloadstore-IsInRange :
    {c : Context} → IsInRange c → IsInRange (decode_000_mul_extraloadstore c)
unfolding decode_000_mul_extraloadstore
decode_000_mul_extraloadstore-IsInRange {c} v =
    by_extend_mode-IsInRange (extra_mode c) (extra_offset-IsInRange v)

pub decode_000_regs-IsInRange : {c : Context} → IsInRange c → IsInRange (decode_000_regs c)
unfolding decode_000_regs
decode_000_regs-IsInRange v =
    ground (arith, decode_000_mul_extraloadstore-IsInRange v, data_reg_shift-IsInRange v)
