-- ===== src/Printer/Formats.antt =====
-- The texts `INST::strings` of Core/Disassembler.cpp, the lower-case set: how the printer writes an
-- instruction, and which of its fields the translator passes on.
use Prim.Native.Char.{code}
use Prim.Native.String.{String}
use ndse_core.Base.{ℕ, List, [], ◌∷◌}
use ndse_core.Disassembler.{Inst}

-- The code points of a text.
abbrev pub codes : String → List ℕ
codes String.[] = []
codes (String.◌∷◌ c s) = code c ∷ codes s

-- `INST::strings[i]`
unfoldable pub strings : Inst → String
strings Inst.ud = "ud"
strings Inst.debug = "%?debug"
strings Inst.unknown = "unknown"
strings Inst.str_i = "str%c %Rd,[%-%Rn],#0x%I"
strings Inst.ldr_i = "ldr%c %Rd,[%-%Rn],#0x%I"
strings Inst.str_iw = "str%ct %Rd,[%-%Rn],#0x%I"
strings Inst.ldr_iw = "ldr%ct %Rd,[%-%Rn],#0x%I"
strings Inst.strb_i = "str%cb %Rd,[%-%Rn],#0x%I"
strings Inst.ldrb_i = "ldr%cb %Rd,[%-%Rn],#0x%I"
strings Inst.strb_iw = "str%cbt [%Rd],%-%Rn,#0x%I"
strings Inst.ldrb_iw = "ldr%cbt [%Rd],%-%Rn,#0x%I"
strings Inst.str_ip = "str%c %Rd,[%-%Rn,#0x%I]"
strings Inst.ldr_ip = "ldr%c %Rd,[%-%Rn,#0x%I]"
strings Inst.str_ipw = "str%c %Rd,[%-%Rn,#0x%I]!"
strings Inst.ldr_ipw = "ldr%c %Rd,[%-%Rn,#0x%I]!"
strings Inst.strb_ip = "str%cb %Rd,[%-%Rn,#0x%I]"
strings Inst.ldrb_ip = "ldr%cb %Rd,[%-%Rn,#0x%I]"
strings Inst.strb_ipw = "str%cb %Rd,[%-%Rn,#0x%I]!"
strings Inst.ldrb_ipw = "ldr%cb %Rd,[%-%Rn,#0x%I]!"
strings Inst.str_r = "str%c %Rd,[%-%Rn],%Rm %S#0x%I"
strings Inst.ldr_r = "ldr%c %Rd,[%-%Rn],%Rm %S#0x%I"
strings Inst.str_rw = "str%ct %Rd,[%-%Rn],%Rm %S#0x%I"
strings Inst.ldr_rw = "ldr%ct %Rd,[%-%Rn],%Rm %S#0x%I"
strings Inst.strb_r = "str%cb %Rd,[%-%Rn],%Rm %S#0x%I"
strings Inst.ldrb_r = "ldr%cb %Rd,[%-%Rn],%Rm %S#0x%I"
strings Inst.strb_rw = "str%cbt %Rd,[%-%Rn],%Rm %S#0x%I"
strings Inst.ldrb_rw = "ldr%cbt %Rd,[%-%Rn],%Rm %S#0x%I"
strings Inst.str_rp = "str%c %Rd,[%-%Rn,%Rm %S#0x%I]"
strings Inst.ldr_rp = "ldr%c %Rd,[%-%Rn,%Rm %S#0x%I]"
strings Inst.str_rpw = "str%c %Rd,[%-%Rn,%Rm %S#0x%I]!"
strings Inst.ldr_rpw = "ldr%c %Rd,[%-%Rn,%Rm %S#0x%I]!"
strings Inst.strb_rp = "str%cb %Rd,[%-%Rn,%Rm %S#0x%I]"
strings Inst.ldrb_rp = "ldr%cb %Rd,[%-%Rn,%Rm %S#0x%I]"
strings Inst.strb_rpw = "str%cb %Rd,[%-%Rn,%Rm %S#0x%I]!"
strings Inst.ldrb_rpw = "ldr%cb %Rd,[%-%Rn,%Rm %S#0x%I]!"
strings Inst.and_i = "and%c%s %Rd,%Rn,#0x%I"
strings Inst.eor_i = "eor%c%s %Rd,%Rn,#0x%I"
strings Inst.sub_i = "sub%c%s %Rd,%Rn,#0x%I"
strings Inst.rsb_i = "rsb%c%s %Rd,%Rn,#0x%I"
strings Inst.add_i = "add%c%s %Rd,%Rn,#0x%I"
strings Inst.adc_i = "adc%c%s %Rd,%Rn,#0x%I"
strings Inst.sbc_i = "sbc%c%s %Rd,%Rn,#0x%I"
strings Inst.rsc_i = "rsc%c%s %Rd,%Rn,#0x%I"
strings Inst.tst_i = "tst%c %Rn,#0x%I"
strings Inst.teq_i = "teq%c %Rn,#0x%I"
strings Inst.cmp_i = "cmp%c %Rn,#0x%I"
strings Inst.cmn_i = "cmn%c %Rn,#0x%I"
strings Inst.orr_i = "orr%c%s %Rd,%Rn,#0x%I"
strings Inst.mov_i = "mov%c%s %Rd,#0x%I"
strings Inst.bic_i = "bic%c%s %Rd,%Rn,#0x%I"
strings Inst.mvn_i = "mvn%c%s %Rd,#0x%I"
strings Inst.msr_cpsr_i = "msr cpsr_%F,#0x%I"
strings Inst.msr_spsr_i = "msr spsr_%F,#0x%I"
strings Inst.and_r = "and%c%s %Rd,%Rn,%Rm,%S#0x%I"
strings Inst.eor_r = "eor%c%s %Rd,%Rn,%Rm,%S#0x%I"
strings Inst.sub_r = "sub%c%s %Rd,%Rn,%Rm,%S#0x%I"
strings Inst.rsb_r = "rsb%c%s %Rd,%Rn,%Rm,%S#0x%I"
strings Inst.add_r = "add%c%s %Rd,%Rn,%Rm,%S#0x%I"
strings Inst.adc_r = "adc%c%s %Rd,%Rn,%Rm,%S#0x%I"
strings Inst.sbc_r = "sbc%c%s %Rd,%Rn,%Rm,%S#0x%I"
strings Inst.rsc_r = "rsc%c%s %Rd,%Rn,%Rm,%S#0x%I"
strings Inst.tst_r = "tst%c %Rn,%Rm,%S#0x%I"
strings Inst.teq_r = "teq%c %Rn,%Rm,%S#0x%I"
strings Inst.cmp_r = "cmp%c %Rn,%Rm,%S#0x%I"
strings Inst.cmn_r = "cmn%c %Rn,%Rm,%S#0x%I"
strings Inst.orr_r = "orr%c%s %Rd,%Rn,%Rm,%S#0x%I"
strings Inst.mov_r = "mov%c%s %Rd,%Rm,%S#0x%I"
strings Inst.bic_r = "bic%c%s %Rd,%Rn,%Rm,%S#0x%I"
strings Inst.mvn_r = "mvn%c%s %Rd,%Rm,%S#0x%I"
strings Inst.and_rr = "and%c%s %Rd,%Rn,%Rm,%S %Rs"
strings Inst.eor_rr = "eor%c%s %Rd,%Rn,%Rm,%S %Rs"
strings Inst.sub_rr = "sub%c%s %Rd,%Rn,%Rm,%S %Rs"
strings Inst.rsb_rr = "rsb%c%s %Rd,%Rn,%Rm,%S %Rs"
strings Inst.add_rr = "add%c%s %Rd,%Rn,%Rm,%S %Rs"
strings Inst.adc_rr = "adc%c%s %Rd,%Rn,%Rm,%S %Rs"
strings Inst.sbc_rr = "sbc%c%s %Rd,%Rn,%Rm,%S %Rs"
strings Inst.rsc_rr = "rsc%c%s %Rd,%Rn,%Rm,%S %Rs"
strings Inst.tst_rr = "tst%c %Rn,%Rm,%S %Rs"
strings Inst.teq_rr = "teq%c %Rn,%Rm,%S %Rs"
strings Inst.cmp_rr = "cmp%c %Rn,%Rm,%S %Rs"
strings Inst.cmn_rr = "cmn%c %Rn,%Rm,%S %Rs"
strings Inst.orr_rr = "orr%c%s %Rd,%Rn,%Rm,%S %Rs"
strings Inst.mov_rr = "mov%c%s %Rd,%Rm,%S %Rs"
strings Inst.bic_rr = "%?bic%c%s %Rd,%Rn,%Rm,%S %Rs"
strings Inst.mvn_rr = "mvn%c%s %Rd,%Rm,%S %Rs"
strings Inst.msr_cpsr_r = "msr%c cpsr_%F,%Rm"
strings Inst.msr_spsr_r = "msr%c spsr_%F,%Rm"
strings Inst.mrs_cpsr = "msr%c %Rd,cpsr"
strings Inst.mrs_spsr = "mrs%c %Rd,spsr"
strings Inst.clz = "clz%c %Rd,%Rm"
strings Inst.bkpt = "bkpt #0x%I"
strings Inst.swi = "swi #0x%I"
strings Inst.bx = "bx%c %Rm"
strings Inst.blx = "blx%c %Rm"
strings Inst.b = "b%c #0x%A"
strings Inst.bl = "bl%c #0x%A"
strings Inst.mrc = "mrc%c %Cp,%C1,%Rd,%CRn,%CRm,%C2"
strings Inst.mcr = "mcr%c %Cp,%C1,%Rd,%CRn,%CRm,%C2"
strings Inst.stm = "stm%c%M %Rn,{%RL}%^"
strings Inst.ldm = "ldm%c%M %Rn,{%RL}%^"
strings Inst.stm_w = "stm%c%M %Rn!,{%RL}%^"
strings Inst.ldm_w = "ldm%c%M %Rn!,{%RL}%^"
strings Inst.strx_i = "str%c%E %Rd,[%-%Rn],#0x%I"
strings Inst.ldrx_i = "ldr%c%E %Rd,[%-%Rn],#0x%I"
strings Inst.strx_iw = "str%c%E %Rd,[%-%Rn],#0x%I!"
strings Inst.ldrx_iw = "ldr%c%E %Rd,[%-%Rn],#0x%I!"
strings Inst.strx_ip = "str%c%E %Rd,[%-%Rn,#0x%I]"
strings Inst.ldrx_ip = "ldr%c%E %Rd,[%-%Rn,#0x%I]"
strings Inst.strx_ipw = "str%c%E %Rd,[%-%Rn,#0x%I]!"
strings Inst.ldrx_ipw = "ldr%c%E %Rd,[%-%Rn,#0x%I]!"
strings Inst.strx_r = "str%c%E %Rd,[%-%Rn],%Rm"
strings Inst.ldrx_r = "ldr%c%E %Rd,[%-%Rn],%Rm"
strings Inst.strx_rw = "str%c%E %Rd,[%-%Rn],%Rm!"
strings Inst.ldrx_rw = "ldr%c%E %Rd,[%-%Rn],%Rm!"
strings Inst.strx_rp = "str%c%E %Rd,[%-%Rn,%Rm]"
strings Inst.ldrx_rp = "ldr%c%E %Rd,[%-%Rn,%Rm]"
strings Inst.strx_rpw = "str%c%E %Rd,[%-%Rn,%Rm]!"
strings Inst.ldrx_rpw = "ldr%c%E %Rd,[%-%Rn,%Rm]!"
strings Inst.bpre = "bpre #0x%A"
strings Inst.mul_r = "mul%c%s %Rd,%Rm,%Rs"
strings Inst.mla_r = "mla%c%s %Rd,%Rm,%Rs,%Rn"
strings Inst.umull = "umull%c%s %Rd,%Rn,%Rm,%Rs"
strings Inst.umlal = "umlal%c%s %Rd,%Rn,%Rm,%R"
strings Inst.smull = "smull%c%s %Rd,%Rn,%Rm,%Rs"
strings Inst.smlal = "smlal%c%s %Rd,%Rn,%Rm,%Rs"
strings Inst.swp = "swp%c %Rd,%Rm,[%Rn]"
strings Inst.swpb = "swpb%c %Rd,%Rm,[%Rn]"
strings Inst.blx_i = "blx%c #0x%A"
strings Inst.ldrd_r = "? ldr%cd_R %Rd,[%-%Rn]"
strings Inst.ldrd_rw = "? ldr%cd_RW %Rd,[%-%Rn]"
strings Inst.ldrd_ri = "ldr%cd %Rd,[%Rn],%I"
strings Inst.ldrd_riw = "? ldr%cd_RIW %Rd,[%-%Rn]"
strings Inst.ldrd_rp = "? ldr%cd_RP %Rd,[%-%Rn]"
strings Inst.ldrd_rpw = "? ldr%cd_RPW %Rd,[%-%Rn]"
strings Inst.ldrd_rip = "? ldr%cd_RIP %Rd,[%-%Rn]"
strings Inst.ldrd_ripw = "? ldr%cd_RIPW %Rd,[%-%Rn]"
strings Inst.pld_i = "pld [%Rn,#%-%I]"
strings Inst.pld_r = "? pld [%Rn]"
