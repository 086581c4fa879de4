-- ===== src/Interpreter/Tests.antt =====
-- Tests of the interpreter, and an instance of each theorem about it.
use ndse_core.Base.{ℕ, List, some, ◌%◌, ◌^◌, ◌≡◌, refl, arith, [], ◌∷◌, false}
use ndse_core.Ipc.{Cpu}
use ndse_core.MemMap.{Region, MapCall}
use ndse_core.Disassembler.{Inst, Shift, Condition, AddressingMode, ExtendMode, Context}
use ndse_core.Status.{Mode, EmulationContext, ctx}
use ndse_core.Memory.{Memory, PageFlags, Handlers, store32}
use ndse_core.Interpreter.{Core, reg, str_ip, ldr_ip, addr_ip, add_i, add_flags, mov_r, mcr}
use ndse_core.Interpreter.{write_control, remap_tcm}
use ndse_core.Interpreter.Shifter.{shifter, shift_by}
use ndse_core.Interpreter.Execute.{execute, funcs}
use ndse_core.Interpreter.Carry.{Agrees}
use ndse_core.Interpreter.Shifts.{shifter-shift_each}
use ndse_core.Interpreter.Shape.{HasRegisters}
use ndse_core.Translator.{push_args}
use ndse_core.Translator.Call.{call_stack, execute-call_stack}
use ndse_core.Interpreter.Transfer.{ldr_ip-str_ip}

abbrev start_context : EmulationContext
start_context = record {
  regs = 0x80000000 ∷ 0x100 ∷ 7 ∷ 7 ∷ 7 ∷ 7 ∷ 7 ∷ 7 ∷ 7 ∷ 7 ∷ 7 ∷ 7 ∷ 7 ∷ 7 ∷ 7 ∷ 0x400 ∷ [];
  cpsr = 0x10;
  spsr = 0;
  x86_flags = 0;
  bpre = 0;
  control_register = 0;
}

abbrev plain_flags : PageFlags
plain_flags = record {
  readprot = false;
  writeprot = false;
  execprot = false;
  invalid = false;
  dirty_j7 = false;
  dirty_j9 = false;
  dirty_reactor = false;
  dirty_vram = false;
  dirty_sram = false;
  accesshandler = false;
  writeprot8 = false;
}

abbrev start_memory : Memory Unit
start_memory = record {
  map = λ p. p;
  block = λ id. record { flags = plain_flags; mem = λ i. i % 2 ^ 8 };
  device = tt;
  breaks = 0;
}

abbrev silent : Handlers Unit
silent = record {
  load32 = λ addr m. (0, m);
  load16u = λ addr m. (0, m);
  load16s = λ addr m. (0, m);
  load8u = λ addr m. (0, m);
  store32 = λ addr value m. m;
  store16 = λ addr value m. m;
  store8 = λ addr value m. m;
  load32_array = λ addr num m. ([], m);
  store32_array = λ addr words m. m;
}

abbrev start_core : Core Unit
start_core = record {
  cpu = Cpu.arm9;
  processor = record { context = λ m. start_context; mode = Mode.user; breaks = 0 };
  memory = start_memory;
  calls = [];
}

-- `add r2, r0, #0x80000000` with flags: the sum is 0 and below what R2 held.
add_wraps : (ctx (add_i 1 0x80000000 0 2 start_core).processor).cpsr ≡ 0x50000010
unfolding add_i add_flags
add_wraps = refl

-- `mov r2, r1, lsl #4` puts the amount into R2 and the shifted value into R1.
mov_r_swaps :
    (reg 2 (mov_r 0 4 Shift.lsl 1 2 start_core) ≡ 4)
    × (reg 1 (mov_r 0 4 Shift.lsl 1 2 start_core) ≡ 0x1000)
unfolding mov_r shifter shift_by
mov_r_swaps = (refl, refl)

-- The move of the data memory uses the number of the register, 2, not what it holds.
mcr_remaps :
    (mcr 0 0 1 9 2 0 15 start_core).calls
    ≡ MapCall.unmap Region.data_tcm ∷ MapCall.map_region Region.data_tcm 0 2 ∷ []
unfolding mcr write_control remap_tcm
mcr_remaps = refl

start-HasRegisters : HasRegisters start_core
start-HasRegisters m = refl

-- `str r2, [r1, #5]`
abbrev store_inst : Context
store_inst = record {
  instruction = Inst.str_ip;
  cond = Condition.al;
  shift = Shift.lsl;
  addressing_mode = AddressingMode.da;
  extend_mode = ExtendMode.invalid;
  flags = 2;
  imm = 5;
  rd = 2;
  rn = 1;
  rm = 0;
  rs = 0;
  cp_num = 0;
  cp_op1 = 0;
  cp_op2 = 0;
  op = 0;
  addr = 0;
}

execute-call_stack_example :
    (args : List ℕ) × (push_args store_inst ≡ some args)
    × (call_stack silent (funcs store_inst.instruction) args start_core
        ≡ execute silent store_inst start_core)
unfolding funcs
execute-call_stack_example =
    execute-call_stack silent store_inst start_core (λ e. ground arith) (omega arith)

ldr_ip-str_ip_example :
    let c = ldr_ip silent 2 5 1 3 (str_ip silent 2 5 1 2 start_core) in
    (reg 3 c ≡ 0x07000000)
    × (c.memory ≡ store32 silent 0x105 7 start_memory)
    × (c.processor.breaks ≡ 0)
unfolding addr_ip
ldr_ip-str_ip_example =
    ldr_ip-str_ip silent 2 5 1 2 3 start_core start-HasRegisters
      (omega arith, omega arith, omega arith) (omega arith)
      (record { present = refl; readable = refl; writable = refl; direct = refl })

shifter-shift_each_example : Agrees (shifter 0x80000001 36 Shift.ror 0) (0, 0x18000000)
shifter-shift_each_example =
    shifter-shift_each Shift.ror 0x80000001 36 0 (λ e. ground arith) (omega arith) (omega arith)
      (omega arith)
