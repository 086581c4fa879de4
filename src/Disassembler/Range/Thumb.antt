-- ===== src/Disassembler/Range/Thumb.antt =====
-- The Thumb decoder, group by group.
use ndse_core.Base.{arith}
use ndse_core.Disassembler.{Context}
use ndse_core.Disassembler.Range.{IsInRange}
use ndse_core.Disassembler.Thumb.Arith.{
  decode_t000, decode_t001, decode_t0101_loadstore_reg, decode_t01001_loadliteral,
  decode_t010001_sdata_b, decode_t010000_dataproc, decode_t010,
}
use ndse_core.Disassembler.Thumb.Memory.{
  decode_t011, decode_t100, decode_t1011_misc, decode_t101, decode_t110, decode_t111,
  decode_t1001_loadstore_stack, decode_t1010_add_sp_pc, decode_t1101_bcond_swi,
  decode_t1100_loadstore_multiple,
}

pub decode_t000-IsInRange : {c : Context} → IsInRange c → IsInRange (decode_t000 c)
unfolding decode_t000
decode_t000-IsInRange v = ground arith

pub decode_t001-IsInRange : {c : Context} → IsInRange c → IsInRange (decode_t001 c)
unfolding decode_t001
decode_t001-IsInRange v = ground arith

decode_t0101_loadstore_reg-IsInRange :
    {c : Context} → IsInRange c → IsInRange (decode_t0101_loadstore_reg c)
unfolding decode_t0101_loadstore_reg
decode_t0101_loadstore_reg-IsInRange v = ground arith

decode_t01001_loadliteral-IsInRange :
    {c : Context} → IsInRange c → IsInRange (decode_t01001_loadliteral c)
unfolding decode_t01001_loadliteral
decode_t01001_loadliteral-IsInRange v = ground arith

decode_t010001_sdata_b-IsInRange :
    {c : Context} → IsInRange c → IsInRange (decode_t010001_sdata_b c)
unfolding decode_t010001_sdata_b
decode_t010001_sdata_b-IsInRange v = ground arith

decode_t010000_dataproc-IsInRange :
    {c : Context} → IsInRange c → IsInRange (decode_t010000_dataproc c)
unfolding decode_t010000_dataproc
decode_t010000_dataproc-IsInRange v = ground arith

pub decode_t010-IsInRange : {c : Context} → IsInRange c → IsInRange (decode_t010 c)
unfolding decode_t010
decode_t010-IsInRange v = ground (
  arith,
  decode_t0101_loadstore_reg-IsInRange v,
  decode_t01001_loadliteral-IsInRange v,
  decode_t010001_sdata_b-IsInRange v,
  decode_t010000_dataproc-IsInRange v,
)

pub decode_t011-IsInRange : {c : Context} → IsInRange c → IsInRange (decode_t011 c)
unfolding decode_t011
decode_t011-IsInRange v = ground arith

pub decode_t100-IsInRange : {c : Context} → IsInRange c → IsInRange (decode_t100 c)
unfolding decode_t100 decode_t1001_loadstore_stack
decode_t100-IsInRange v = ground arith

decode_t1011_misc-IsInRange : {c : Context} → IsInRange c → IsInRange (decode_t1011_misc c)
unfolding decode_t1011_misc
decode_t1011_misc-IsInRange v = ground arith

pub decode_t101-IsInRange : {c : Context} → IsInRange c → IsInRange (decode_t101 c)
unfolding decode_t101 decode_t1010_add_sp_pc
decode_t101-IsInRange v = ground (arith, decode_t1011_misc-IsInRange v)

pub decode_t110-IsInRange : {c : Context} → IsInRange c → IsInRange (decode_t110 c)
unfolding decode_t110 decode_t1101_bcond_swi decode_t1100_loadstore_multiple
decode_t110-IsInRange v = ground arith

pub decode_t111-IsInRange : {c : Context} → IsInRange c → IsInRange (decode_t111 c)
unfolding decode_t111
decode_t111-IsInRange v = ground arith
