-- ===== src/Translator/Functions.antt =====
-- The instruction that each function of the interpreter core stands for (Core/HLCore.cpp).
use ndse_core.Base.{◌≡◌, ◌≢◌, refl}
use ndse_core.Disassembler.{Inst}
use ndse_core.Interpreter.Execute.{Function, funcs}

-- The instruction of each function that does more than stop.
abbrev pub instruction_of : Function → Inst
instruction_of Function.str_ip = Inst.str_ip
instruction_of Function.ldr_ip = Inst.ldr_ip
instruction_of Function.str_ipw = Inst.str_ipw
instruction_of Function.ldr_ipw = Inst.ldr_ipw
instruction_of Function.strb_ip = Inst.strb_ip
instruction_of Function.ldrb_ip = Inst.ldrb_ip
instruction_of Function.strx_ip = Inst.strx_ip
instruction_of Function.ldrx_ip = Inst.ldrx_ip
instruction_of Function.add_i = Inst.add_i
instruction_of Function.orr_i = Inst.orr_i
instruction_of Function.mov_i = Inst.mov_i
instruction_of Function.mov_r = Inst.mov_r
instruction_of Function.msr_cpsr_i = Inst.msr_cpsr_i
instruction_of Function.msr_cpsr_r = Inst.msr_cpsr_r
instruction_of Function.mcr = Inst.mcr
instruction_of Function.stub = Inst.ud

pub funcs-instruction_of : (i : Inst) → funcs i ≢ Function.stub → i ≡ instruction_of (funcs i)
unfolding funcs
funcs-instruction_of Inst.ud n = absurd (n refl)
funcs-instruction_of Inst.debug n = absurd (n refl)
funcs-instruction_of Inst.unknown n = absurd (n refl)
funcs-instruction_of Inst.str_i n = absurd (n refl)
funcs-instruction_of Inst.ldr_i n = absurd (n refl)
funcs-instruction_of Inst.str_iw n = absurd (n refl)
funcs-instruction_of Inst.ldr_iw n = absurd (n refl)
funcs-instruction_of Inst.strb_i n = absurd (n refl)
funcs-instruction_of Inst.ldrb_i n = absurd (n refl)
funcs-instruction_of Inst.strb_iw n = absurd (n refl)
funcs-instruction_of Inst.ldrb_iw n = absurd (n refl)
funcs-instruction_of Inst.str_ip n = refl
funcs-instruction_of Inst.ldr_ip n = refl
funcs-instruction_of Inst.str_ipw n = refl
funcs-instruction_of Inst.ldr_ipw n = refl
funcs-instruction_of Inst.strb_ip n = refl
funcs-instruction_of Inst.ldrb_ip n = refl
funcs-instruction_of Inst.strb_ipw n = absurd (n refl)
funcs-instruction_of Inst.ldrb_ipw n = absurd (n refl)
funcs-instruction_of Inst.str_r n = absurd (n refl)
funcs-instruction_of Inst.ldr_r n = absurd (n refl)
funcs-instruction_of Inst.str_rw n = absurd (n refl)
funcs-instruction_of Inst.ldr_rw n = absurd (n refl)
funcs-instruction_of Inst.strb_r n = absurd (n refl)
funcs-instruction_of Inst.ldrb_r n = absurd (n refl)
funcs-instruction_of Inst.strb_rw n = absurd (n refl)
funcs-instruction_of Inst.ldrb_rw n = absurd (n refl)
funcs-instruction_of Inst.str_rp n = absurd (n refl)
funcs-instruction_of Inst.ldr_rp n = absurd (n refl)
funcs-instruction_of Inst.str_rpw n = absurd (n refl)
funcs-instruction_of Inst.ldr_rpw n = absurd (n refl)
funcs-instruction_of Inst.strb_rp n = absurd (n refl)
funcs-instruction_of Inst.ldrb_rp n = absurd (n refl)
funcs-instruction_of Inst.strb_rpw n = absurd (n refl)
funcs-instruction_of Inst.ldrb_rpw n = absurd (n refl)
funcs-instruction_of Inst.and_i n = absurd (n refl)
funcs-instruction_of Inst.eor_i n = absurd (n refl)
funcs-instruction_of Inst.sub_i n = absurd (n refl)
funcs-instruction_of Inst.rsb_i n = absurd (n refl)
funcs-instruction_of Inst.add_i n = refl
funcs-instruction_of Inst.adc_i n = absurd (n refl)
funcs-instruction_of Inst.sbc_i n = absurd (n refl)
funcs-instruction_of Inst.rsc_i n = absurd (n refl)
funcs-instruction_of Inst.tst_i n = absurd (n refl)
funcs-instruction_of Inst.teq_i n = absurd (n refl)
funcs-instruction_of Inst.cmp_i n = absurd (n refl)
funcs-instruction_of Inst.cmn_i n = absurd (n refl)
funcs-instruction_of Inst.orr_i n = refl
funcs-instruction_of Inst.mov_i n = refl
funcs-instruction_of Inst.bic_i n = absurd (n refl)
funcs-instruction_of Inst.mvn_i n = absurd (n refl)
funcs-instruction_of Inst.msr_cpsr_i n = refl
funcs-instruction_of Inst.msr_spsr_i n = absurd (n refl)
funcs-instruction_of Inst.and_r n = absurd (n refl)
funcs-instruction_of Inst.eor_r n = absurd (n refl)
funcs-instruction_of Inst.sub_r n = absurd (n refl)
funcs-instruction_of Inst.rsb_r n = absurd (n refl)
funcs-instruction_of Inst.add_r n = absurd (n refl)
funcs-instruction_of Inst.adc_r n = absurd (n refl)
funcs-instruction_of Inst.sbc_r n = absurd (n refl)
funcs-instruction_of Inst.rsc_r n = absurd (n refl)
funcs-instruction_of Inst.tst_r n = absurd (n refl)
funcs-instruction_of Inst.teq_r n = absurd (n refl)
funcs-instruction_of Inst.cmp_r n = absurd (n refl)
funcs-instruction_of Inst.cmn_r n = absurd (n refl)
funcs-instruction_of Inst.orr_r n = absurd (n refl)
funcs-instruction_of Inst.mov_r n = refl
funcs-instruction_of Inst.bic_r n = absurd (n refl)
funcs-instruction_of Inst.mvn_r n = absurd (n refl)
funcs-instruction_of Inst.and_rr n = absurd (n refl)
funcs-instruction_of Inst.eor_rr n = absurd (n refl)
funcs-instruction_of Inst.sub_rr n = absurd (n refl)
funcs-instruction_of Inst.rsb_rr n = absurd (n refl)
funcs-instruction_of Inst.add_rr n = absurd (n refl)
funcs-instruction_of Inst.adc_rr n = absurd (n refl)
funcs-instruction_of Inst.sbc_rr n = absurd (n refl)
funcs-instruction_of Inst.rsc_rr n = absurd (n refl)
funcs-instruction_of Inst.tst_rr n = absurd (n refl)
funcs-instruction_of Inst.teq_rr n = absurd (n refl)
funcs-instruction_of Inst.cmp_rr n = absurd (n refl)
funcs-instruction_of Inst.cmn_rr n = absurd (n refl)
funcs-instruction_of Inst.orr_rr n = absurd (n refl)
funcs-instruction_of Inst.mov_rr n = absurd (n refl)
funcs-instruction_of Inst.bic_rr n = absurd (n refl)
funcs-instruction_of Inst.mvn_rr n = absurd (n refl)
funcs-instruction_of Inst.msr_cpsr_r n = refl
funcs-instruction_of Inst.msr_spsr_r n = absurd (n refl)
funcs-instruction_of Inst.mrs_cpsr n = absurd (n refl)
funcs-instruction_of Inst.mrs_spsr n = absurd (n refl)
funcs-instruction_of Inst.clz n = absurd (n refl)
funcs-instruction_of Inst.bkpt n = absurd (n refl)
funcs-instruction_of Inst.swi n = absurd (n refl)
funcs-instruction_of Inst.bx n = absurd (n refl)
funcs-instruction_of Inst.blx n = absurd (n refl)
funcs-instruction_of Inst.b n = absurd (n refl)
funcs-instruction_of Inst.bl n = absurd (n refl)
funcs-instruction_of Inst.mrc n = absurd (n refl)
funcs-instruction_of Inst.mcr n = refl
funcs-instruction_of Inst.stm n = absurd (n refl)
funcs-instruction_of Inst.ldm n = absurd (n refl)
funcs-instruction_of Inst.stm_w n = absurd (n refl)
funcs-instruction_of Inst.ldm_w n = absurd (n refl)
funcs-instruction_of Inst.strx_i n = absurd (n refl)
funcs-instruction_of Inst.ldrx_i n = absurd (n refl)
funcs-instruction_of Inst.strx_iw n = absurd (n refl)
funcs-instruction_of Inst.ldrx_iw n = absurd (n refl)
funcs-instruction_of Inst.strx_ip n = refl
funcs-instruction_of Inst.ldrx_ip n = refl
funcs-instruction_of Inst.strx_ipw n = absurd (n refl)
funcs-instruction_of Inst.ldrx_ipw n = absurd (n refl)
funcs-instruction_of Inst.strx_r n = absurd (n refl)
funcs-instruction_of Inst.ldrx_r n = absurd (n refl)
funcs-instruction_of Inst.strx_rw n = absurd (n refl)
funcs-instruction_of Inst.ldrx_rw n = absurd (n refl)
funcs-instruction_of Inst.strx_rp n = absurd (n refl)
funcs-instruction_of Inst.ldrx_rp n = absurd (n refl)
funcs-instruction_of Inst.strx_rpw n = absurd (n refl)
funcs-instruction_of Inst.ldrx_rpw n = absurd (n refl)
funcs-instruction_of Inst.bpre n = absurd (n refl)
funcs-instruction_of Inst.mul_r n = absurd (n refl)
funcs-instruction_of Inst.mla_r n = absurd (n refl)
funcs-instruction_of Inst.umull n = absurd (n refl)
funcs-instruction_of Inst.umlal n = absurd (n refl)
funcs-instruction_of Inst.smull n = absurd (n refl)
funcs-instruction_of Inst.smlal n = absurd (n refl)
funcs-instruction_of Inst.swp n = absurd (n refl)
funcs-instruction_of Inst.swpb n = absurd (n refl)
funcs-instruction_of Inst.blx_i n = absurd (n refl)
funcs-instruction_of Inst.ldrd_r n = absurd (n refl)
funcs-instruction_of Inst.ldrd_rw n = absurd (n refl)
funcs-instruction_of Inst.ldrd_ri n = absurd (n refl)
funcs-instruction_of Inst.ldrd_riw n = absurd (n refl)
funcs-instruction_of Inst.ldrd_rp n = absurd (n refl)
funcs-instruction_of Inst.ldrd_rpw n = absurd (n refl)
funcs-instruction_of Inst.ldrd_rip n = absurd (n refl)
funcs-instruction_of Inst.ldrd_ripw n = absurd (n refl)
funcs-instruction_of Inst.pld_i n = absurd (n refl)
funcs-instruction_of Inst.pld_r n = absurd (n refl)
