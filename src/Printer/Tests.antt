-- ===== src/Printer/Tests.antt =====
-- Tests of the printer, and an instance of each theorem about it.
use ndse_core.Base.{◌≡◌, ◌≢◌, refl, arith, none, some}
use ndse_core.Disassembler.{Context, Inst, Condition, Shift, AddressingMode, ExtendMode}
use ndse_core.Disassembler.Range.{IsInRange}
use ndse_core.Printer.{cat, cat_hex8, cat_hex_fuel, cat_nibble, cat_entry, step_back}
use ndse_core.Printer.Directive.{directive_of, operand_of}
use ndse_core.Printer.Formats.{codes, strings}
use ndse_core.Printer.Print.{
  get_str, print_loop, print_round, print_percent, print_directive, decode_reg_text, print_operand,
  print_list, list_regs,
}
use ndse_core.Printer.Tokens.{tokenize, reg_names}
use ndse_core.Printer.Total.{get_str_printed}
use ndse_core.Printer.Hex.{read_hex, read_hex-cat_hex}

-- LDMIA R13!,{R0,R3,R15}
abbrev pop_three : Context
pop_three = record {
  instruction = Inst.ldm_w;
  cond = Condition.al;
  shift = Shift.lsl;
  addressing_mode = AddressingMode.ia;
  extend_mode = ExtendMode.invalid;
  flags = 0;
  imm = 0x8009;
  rd = 0;
  rn = 13;
  rm = 0;
  rs = 0;
  cp_num = 0;
  cp_op1 = 0;
  cp_op2 = 0;
  op = 0xE8BD8009;
  addr = 0;
}

pop_three-IsInRange : IsInRange pop_three
pop_three-IsInRange = record {
  rd_in = omega arith;
  rn_in = omega arith;
  rm_in = omega arith;
  rs_in = omega arith;
  imm_in = omega arith;
  cp_num_in = omega arith;
  cp_op1_in = omega arith;
  cp_op2_in = omega arith;
}

pop_three_text : get_str pop_three ≡ some (codes "ldmia r13!,{r0,r3,r15}")
unfolding get_str print_loop print_round print_percent print_directive decode_reg_text print_operand
    print_list list_regs directive_of operand_of strings cat cat_entry step_back
pop_three_text = refl

branch_text :
    get_str (record pop_three { instruction = Inst.b; cond = Condition.ne; imm = 0x2000100 })
    ≡ some (codes "bne #0x02000100")
unfolding get_str print_loop print_round print_percent print_directive directive_of strings cat
    cat_hex8 cat_nibble
branch_text = refl

get_str_printed_example :
    (Inst.ldm_w ≢ Inst.umlal → get_str pop_three ≡ some (codes "ldmia r13!,{r0,r3,r15}"))
    × (Inst.ldm_w ≡ Inst.umlal → get_str pop_three ≡ none)
unfolding strings tokenize directive_of operand_of reg_names
get_str_printed_example = get_str_printed pop_three pop_three-IsInRange (λ e. omega arith)

read_hex-cat_hex_example :
    (read_hex 0 (codes "1F0A") ≡ 0x1F0A) × (read_hex 0 (codes "00001F0A") ≡ 0x1F0A)
unfolding cat cat_hex_fuel cat_nibble cat_hex8
read_hex-cat_hex_example = read_hex-cat_hex 0x1F0A (omega arith)
