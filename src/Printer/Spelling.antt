-- ===== src/Printer/Spelling.antt =====
-- How the formats of Core/Disassembler.cpp spell their tokens.
use ndse_core.Base.{◌≡◌, ◌≢◌, refl, Bool, true, false, ◌==◌, not, List, [], ◌∷◌, ◌&&◌}
use ndse_core.Disassembler.{Inst}
use ndse_core.Printer.Directive.{Directive, CoprocField, directive_of, operand_of, coproc_field_of}
use ndse_core.Printer.Formats.{codes, strings}
use ndse_core.Printer.Tokens.{Token, spell_all, tokenize, tokens}

-- A literal is no `%`, and `R` and `C` are never alone.
abbrev pub is_spelled : Token → Bool
is_spelled (Token.literal x) = not (x == b'%')
is_spelled (Token.plain Directive.register) = false
is_spelled (Token.plain Directive.coproc) = false
is_spelled (Token.coproc CoprocField.register) = false
is_spelled _ = true

abbrev pub all_spelled : List Token → Bool
all_spelled [] = true
all_spelled (t ∷ ts) = is_spelled t && all_spelled ts

-- The format of an instruction is the spelling of its tokens.
abbrev pub IsSpelled : Inst → Type 0
IsSpelled i = (codes (strings i) ≡ spell_all (tokens i)) × (all_spelled (tokens i) ≡ true)

pub strings-IsSpelled : (i : Inst) → i ≢ Inst.umlal → IsSpelled i
unfolding strings tokenize directive_of operand_of coproc_field_of
strings-IsSpelled Inst.ud n = (refl, refl)
strings-IsSpelled Inst.debug n = (refl, refl)
strings-IsSpelled Inst.unknown n = (refl, refl)
strings-IsSpelled Inst.str_i n = (refl, refl)
strings-IsSpelled Inst.ldr_i n = (refl, refl)
strings-IsSpelled Inst.str_iw n = (refl, refl)
strings-IsSpelled Inst.ldr_iw n = (refl, refl)
strings-IsSpelled Inst.strb_i n = (refl, refl)
strings-IsSpelled Inst.ldrb_i n = (refl, refl)
strings-IsSpelled Inst.strb_iw n = (refl, refl)
strings-IsSpelled Inst.ldrb_iw n = (refl, refl)
strings-IsSpelled Inst.str_ip n = (refl, refl)
strings-IsSpelled Inst.ldr_ip n = (refl, refl)
strings-IsSpelled Inst.str_ipw n = (refl, refl)
strings-IsSpelled Inst.ldr_ipw n = (refl, refl)
strings-IsSpelled Inst.strb_ip n = (refl, refl)
strings-IsSpelled Inst.ldrb_ip n = (refl, refl)
strings-IsSpelled Inst.strb_ipw n = (refl, refl)
strings-IsSpelled Inst.ldrb_ipw n = (refl, refl)
strings-IsSpelled Inst.str_r n = (refl, refl)
strings-IsSpelled Inst.ldr_r n = (refl, refl)
strings-IsSpelled Inst.str_rw n = (refl, refl)
strings-IsSpelled Inst.ldr_rw n = (refl, refl)
strings-IsSpelled Inst.strb_r n = (refl, refl)
strings-IsSpelled Inst.ldrb_r n = (refl, refl)
strings-IsSpelled Inst.strb_rw n = (refl, refl)
strings-IsSpelled Inst.ldrb_rw n = (refl, refl)
strings-IsSpelled Inst.str_rp n = (refl, refl)
strings-IsSpelled Inst.ldr_rp n = (refl, refl)
strings-IsSpelled Inst.str_rpw n = (refl, refl)
strings-IsSpelled Inst.ldr_rpw n = (refl, refl)
strings-IsSpelled Inst.strb_rp n = (refl, refl)
strings-IsSpelled Inst.ldrb_rp n = (refl, refl)
strings-IsSpelled Inst.strb_rpw n = (refl, refl)
strings-IsSpelled Inst.ldrb_rpw n = (refl, refl)
strings-IsSpelled Inst.and_i n = (refl, refl)
strings-IsSpelled Inst.eor_i n = (refl, refl)
strings-IsSpelled Inst.sub_i n = (refl, refl)
strings-IsSpelled Inst.rsb_i n = (refl, refl)
strings-IsSpelled Inst.add_i n = (refl, refl)
strings-IsSpelled Inst.adc_i n = (refl, refl)
strings-IsSpelled Inst.sbc_i n = (refl, refl)
strings-IsSpelled Inst.rsc_i n = (refl, refl)
strings-IsSpelled Inst.tst_i n = (refl, refl)
strings-IsSpelled Inst.teq_i n = (refl, refl)
strings-IsSpelled Inst.cmp_i n = (refl, refl)
strings-IsSpelled Inst.cmn_i n = (refl, refl)
strings-IsSpelled Inst.orr_i n = (refl, refl)
strings-IsSpelled Inst.mov_i n = (refl, refl)
strings-IsSpelled Inst.bic_i n = (refl, refl)
strings-IsSpelled Inst.mvn_i n = (refl, refl)
strings-IsSpelled Inst.msr_cpsr_i n = (refl, refl)
strings-IsSpelled Inst.msr_spsr_i n = (refl, refl)
strings-IsSpelled Inst.and_r n = (refl, refl)
strings-IsSpelled Inst.eor_r n = (refl, refl)
strings-IsSpelled Inst.sub_r n = (refl, refl)
strings-IsSpelled Inst.rsb_r n = (refl, refl)
strings-IsSpelled Inst.add_r n = (refl, refl)
strings-IsSpelled Inst.adc_r n = (refl, refl)
strings-IsSpelled Inst.sbc_r n = (refl, refl)
strings-IsSpelled Inst.rsc_r n = (refl, refl)
strings-IsSpelled Inst.tst_r n = (refl, refl)
strings-IsSpelled Inst.teq_r n = (refl, refl)
strings-IsSpelled Inst.cmp_r n = (refl, refl)
strings-IsSpelled Inst.cmn_r n = (refl, refl)
strings-IsSpelled Inst.orr_r n = (refl, refl)
strings-IsSpelled Inst.mov_r n = (refl, refl)
strings-IsSpelled Inst.bic_r n = (refl, refl)
strings-IsSpelled Inst.mvn_r n = (refl, refl)
strings-IsSpelled Inst.and_rr n = (refl, refl)
strings-IsSpelled Inst.eor_rr n = (refl, refl)
strings-IsSpelled Inst.sub_rr n = (refl, refl)
strings-IsSpelled Inst.rsb_rr n = (refl, refl)
strings-IsSpelled Inst.add_rr n = (refl, refl)
strings-IsSpelled Inst.adc_rr n = (refl, refl)
strings-IsSpelled Inst.sbc_rr n = (refl, refl)
strings-IsSpelled Inst.rsc_rr n = (refl, refl)
strings-IsSpelled Inst.tst_rr n = (refl, refl)
strings-IsSpelled Inst.teq_rr n = (refl, refl)
strings-IsSpelled Inst.cmp_rr n = (refl, refl)
strings-IsSpelled Inst.cmn_rr n = (refl, refl)
strings-IsSpelled Inst.orr_rr n = (refl, refl)
strings-IsSpelled Inst.mov_rr n = (refl, refl)
strings-IsSpelled Inst.bic_rr n = (refl, refl)
strings-IsSpelled Inst.mvn_rr n = (refl, refl)
strings-IsSpelled Inst.msr_cpsr_r n = (refl, refl)
strings-IsSpelled Inst.msr_spsr_r n = (refl, refl)
strings-IsSpelled Inst.mrs_cpsr n = (refl, refl)
strings-IsSpelled Inst.mrs_spsr n = (refl, refl)
strings-IsSpelled Inst.clz n = (refl, refl)
strings-IsSpelled Inst.bkpt n = (refl, refl)
strings-IsSpelled Inst.swi n = (refl, refl)
strings-IsSpelled Inst.bx n = (refl, refl)
strings-IsSpelled Inst.blx n = (refl, refl)
strings-IsSpelled Inst.b n = (refl, refl)
strings-IsSpelled Inst.bl n = (refl, refl)
strings-IsSpelled Inst.mrc n = (refl, refl)
strings-IsSpelled Inst.mcr n = (refl, refl)
strings-IsSpelled Inst.stm n = (refl, refl)
strings-IsSpelled Inst.ldm n = (refl, refl)
strings-IsSpelled Inst.stm_w n = (refl, refl)
strings-IsSpelled Inst.ldm_w n = (refl, refl)
strings-IsSpelled Inst.strx_i n = (refl, refl)
strings-IsSpelled Inst.ldrx_i n = (refl, refl)
strings-IsSpelled Inst.strx_iw n = (refl, refl)
strings-IsSpelled Inst.ldrx_iw n = (refl, refl)
strings-IsSpelled Inst.strx_ip n = (refl, refl)
strings-IsSpelled Inst.ldrx_ip n = (refl, refl)
strings-IsSpelled Inst.strx_ipw n = (refl, refl)
strings-IsSpelled Inst.ldrx_ipw n = (refl, refl)
strings-IsSpelled Inst.strx_r n = (refl, refl)
strings-IsSpelled Inst.ldrx_r n = (refl, refl)
strings-IsSpelled Inst.strx_rw n = (refl, refl)
strings-IsSpelled Inst.ldrx_rw n = (refl, refl)
strings-IsSpelled Inst.strx_rp n = (refl, refl)
strings-IsSpelled Inst.ldrx_rp n = (refl, refl)
strings-IsSpelled Inst.strx_rpw n = (refl, refl)
strings-IsSpelled Inst.ldrx_rpw n = (refl, refl)
strings-IsSpelled Inst.bpre n = (refl, refl)
strings-IsSpelled Inst.mul_r n = (refl, refl)
strings-IsSpelled Inst.mla_r n = (refl, refl)
strings-IsSpelled Inst.umull n = (refl, refl)
strings-IsSpelled Inst.umlal n = absurd (n refl)
strings-IsSpelled Inst.smull n = (refl, refl)
strings-IsSpelled Inst.smlal n = (refl, refl)
strings-IsSpelled Inst.swp n = (refl, refl)
strings-IsSpelled Inst.swpb n = (refl, refl)
strings-IsSpelled Inst.blx_i n = (refl, refl)
strings-IsSpelled Inst.ldrd_r n = (refl, refl)
strings-IsSpelled Inst.ldrd_rw n = (refl, refl)
strings-IsSpelled Inst.ldrd_ri n = (refl, refl)
strings-IsSpelled Inst.ldrd_riw n = (refl, refl)
strings-IsSpelled Inst.ldrd_rp n = (refl, refl)
strings-IsSpelled Inst.ldrd_rpw n = (refl, refl)
strings-IsSpelled Inst.ldrd_rip n = (refl, refl)
strings-IsSpelled Inst.ldrd_ripw n = (refl, refl)
strings-IsSpelled Inst.pld_i n = (refl, refl)
strings-IsSpelled Inst.pld_r n = (refl, refl)
