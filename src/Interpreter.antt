-- ===== src/Interpreter.antt =====
-- The interpreter of Core/HLCore.cpp: one function per instruction that it has, with the arguments that
-- the source gives it, over the processor's contexts and its memory.
pub mod Shifter
pub mod Execute
pub mod Transfer
pub mod Shape
pub mod Steps
pub mod Carry
pub mod Linear
pub mod Shifts
mod Tests
use ndse_core.Base.{ℕ, ◌+◌, ◌-◌, ◌*◌, ◌/◌, ◌%◌, ◌^◌, ◌==◌, Bool, true, false, if◌then◌else◌, ltb}
use ndse_core.Base.{u32, neg32, bit, List, [], ◌∷◌, ◌++◌, get_or, set, bit_or, switch, ◌||◌, not}
use ndse_core.Disassembler.{Shift, ExtendMode}
use ndse_core.Ipc.{Cpu}
use ndse_core.Status.{Processor, EmulationContext, ctx, Mode, with_context, loadcpsr}
use ndse_core.Memory.{Memory, Handlers, sign16}
use ndse_core.MemMap.{MapCall, Region, map_to}
use ndse_core.Interpreter.Shifter.{shifter}
use ndse_core.Memory

-- What an instruction works on, with the requests to the memory map, oldest first.
pub record Core (D : Type 0) : Type 0 where
  pub cpu : Cpu
  pub processor : Processor
  pub memory : Memory D
  pub calls : List MapCall

-- Writes a register of one mode.
abbrev pub set_reg_of : Mode → (n v : ℕ) → Processor → Processor
set_reg_of m n v p = with_context m (record (p.context m) { regs = set (p.context m).regs n v }) p

-- `IBITS`, from the low bit of R15.
abbrev pub ibits : ℕ → ℕ
ibits pc = if bit pc 0 then 2 else 4

abbrev pub sign8 : ℕ → ℕ
sign8 b = if ltb b (2 ^ 7) then b else b + (2 ^ 32 - 2 ^ 8)

-- The new status register of `ADD_I` and `ORR_I`, where bit 0 of the flags (`S_BIT`) asks for one.
-- `UPDATE_Z` and the like add bits that `UPDATE_FLAGS` cleared; `org` is what Rd held.
unfoldable pub add_flags : (cpsr org sum : ℕ) → ℕ
add_flags cpsr org sum =
    cpsr % 2 ^ 28
    + (if sum == 0 then 2 ^ 30 else 0)
    + (if ltb sum (2 ^ 31) then 0 else 2 ^ 31 + 2 ^ 29)
    + (if ltb sum org then 2 ^ 28 else 0)

unfoldable pub orr_flags : (cpsr union : ℕ) → ℕ
orr_flags cpsr union =
    cpsr % 2 ^ 30 + (if union == 0 then 2 ^ 30 else 0) + union / 2 ^ 31 % 2 * 2 ^ 31

module _ {D : Type 0} where
  abbrev pub reg : ℕ → Core D → ℕ
  reg n c = get_or (ctx c.processor).regs n 0

  abbrev pub set_reg : (n v : ℕ) → Core D → Core D
  set_reg n v c = record c { processor = set_reg_of c.processor.mode n v c.processor }

  abbrev pub set_cpsr : ℕ → Core D → Core D
  set_cpsr v c =
      let p = c.processor in
      record c { processor = with_context p.mode (record (ctx p) { cpsr = v }) p }

  abbrev pub undefined : Core D → Core D
  undefined c = record c { processor = record c.processor { breaks = c.processor.breaks + 1 } }

  -- `BREAK_IF_PC`: the stop, after which the instruction goes on.
  abbrev pub break_if_pc : ℕ → Core D → Core D
  break_if_pc n c = if n == 15 then undefined c else c

  -- `TICK`, on the context of mode `m`.
  abbrev pub tick_of : Mode → Core D → Core D
  tick_of m c =
      let pc = get_or (c.processor.context m).regs 15 0 in
      record c { processor = set_reg_of m 15 (u32 (pc + ibits pc)) c.processor }

  abbrev pub tick : Core D → Core D
  tick c = tick_of c.processor.mode c

  -- `ADDR_IP`: bit 1 of the flags is `U_BIT`.
  unfoldable pub addr_ip : (flags imm rn : ℕ) → Core D → ℕ
  addr_ip flags imm rn c =
      let base = if bit flags 1 then reg rn c else neg32 (reg rn c) in
      let x = if rn == 15 then u32 (base + ibits (reg 15 c)) else base in u32 (x + imm)

  abbrev pub with_memory : Memory D → Core D → Core D
  with_memory m c = record c { memory = m }

  -- `ctx.regs[Rd] = load(addr)`
  abbrev pub load_reg : ℕ → ℕ × Memory D → Core D → Core D
  load_reg rd loaded c = set_reg rd loaded.0 (with_memory loaded.1 c)

  module _ (h : Handlers D) where
    unfoldable pub str_ip : (flags imm rn rd : ℕ) → Core D → Core D
    str_ip flags imm rn rd c =
        let c' = tick (break_if_pc rd c) in
        with_memory (Memory.store32 h (addr_ip flags imm rn c') (reg rd c') c'.memory) c'

    unfoldable pub ldr_ip : (flags imm rn rd : ℕ) → Core D → Core D
    ldr_ip flags imm rn rd c =
        let c' = tick (break_if_pc rd c) in
        load_reg rd (Memory.load32 h (addr_ip flags imm rn c') c'.memory) c'

    unfoldable pub str_ipw : (flags imm rn rd : ℕ) → Core D → Core D
    str_ipw flags imm rn rd c =
        let c' = str_ip flags imm rn rd c in set_reg rn (u32 (reg rn c' + imm)) c'

    unfoldable pub ldr_ipw : (flags imm rn rd : ℕ) → Core D → Core D
    ldr_ipw flags imm rn rd c =
        let c' = ldr_ip flags imm rn rd c in set_reg rn (u32 (reg rn c' + imm)) c'

    unfoldable pub strb_ip : (flags imm rn rd : ℕ) → Core D → Core D
    strb_ip flags imm rn rd c =
        let c' = tick (break_if_pc rd c) in
        with_memory (Memory.store8 h (addr_ip flags imm rn c') (reg rd c') c'.memory) c'

    unfoldable pub ldrb_ip : (flags imm rn rd : ℕ) → Core D → Core D
    ldrb_ip flags imm rn rd c =
        let c' = tick (break_if_pc rd c) in
        load_reg rd (Memory.load8u h (addr_ip flags imm rn c') c'.memory) c'

    -- The switches on the mode of `STRX_IP` and `LDRX_IP`.
    unfoldable pub store_extended : ExtendMode → (addr rd : ℕ) → Core D → Core D
    store_extended ExtendMode.h addr rd c =
        with_memory (Memory.store16 h addr (reg rd c) c.memory) c
    store_extended _ addr rd c = undefined c

    unfoldable pub load_extended : ExtendMode → (addr rd : ℕ) → Core D → Core D
    load_extended ExtendMode.h addr rd c = load_reg rd (Memory.load16u h addr c.memory) c
    load_extended ExtendMode.sb addr rd c =
        let loaded = Memory.load8u h addr c.memory in load_reg rd (sign8 loaded.0, loaded.1) c
    load_extended ExtendMode.sh addr rd c = load_reg rd (Memory.load16s h addr c.memory) c
    load_extended ExtendMode.invalid addr rd c = undefined c

    unfoldable pub strx_ip : (flags imm rn rd : ℕ) → ExtendMode → Core D → Core D
    strx_ip flags imm rn rd mode c =
        let c' = tick (break_if_pc rd c) in store_extended mode (addr_ip flags imm rn c') rd c'

    unfoldable pub ldrx_ip : (flags imm rn rd : ℕ) → ExtendMode → Core D → Core D
    ldrx_ip flags imm rn rd mode c =
        let c' = tick (break_if_pc rd c) in load_extended mode (addr_ip flags imm rn c') rd c'

  unfoldable pub add_i : (flags imm rn rd : ℕ) → Core D → Core D
  add_i flags imm rn rd c0 =
      let c = break_if_pc rn (break_if_pc rd c0) in
      let sum = u32 (reg rn c + imm) in
      let nzcv = add_flags (ctx c.processor).cpsr (reg rd c) sum in
      let c' = set_reg rd sum c in tick (if bit flags 0 then set_cpsr nzcv c' else c')

  unfoldable pub orr_i : (flags imm rn rd : ℕ) → Core D → Core D
  orr_i flags imm rn rd c0 =
      let c = break_if_pc rn (break_if_pc rd c0) in
      let union = bit_or (reg rn c) imm in
      let nz = orr_flags (ctx c.processor).cpsr union in
      let c' = set_reg rd union c in tick (if bit flags 0 then set_cpsr nz c' else c')

  -- The flags that it computes are dropped.
  unfoldable pub mov_i : (flags imm rd : ℕ) → Core D → Core D
  mov_i flags imm rd c = tick (set_reg rd imm (break_if_pc rd c))

  -- `shifter` changes the register `rm` in place; the flags are dropped.
  unfoldable pub mov_r : (flags imm : ℕ) → Shift → (rm rd : ℕ) → Core D → Core D
  mov_r flags imm shift rm rd c =
      let shifted = (shifter (reg rm c) imm shift (ctx c.processor).cpsr).1 in
      tick (set_reg rd imm (set_reg rm shifted c))

  -- It ticks the context that was the current one at its start.
  unfoldable pub msr_cpsr_i : (flags mask imm : ℕ) → Core D → Core D
  msr_cpsr_i flags mask imm c0 =
      let c = undefined c0 in
      tick_of c.processor.mode (record c { processor = loadcpsr imm mask c.processor })

  unfoldable pub msr_cpsr_r : (flags rm mask : ℕ) → Core D → Core D
  msr_cpsr_r flags rm mask c0 =
      let c = tick (break_if_pc rm c0) in
      record c { processor = loadcpsr (reg rm c) mask c.processor }

  abbrev pub remap : Region → (base end_ : ℕ) → Core D → Core D
  remap r base end_ c = record c { calls = c.calls ++ MapCall.unmap r ∷ map_to r base end_ ∷ [] }

  -- `HLE<T>::remap_tcm`
  unfoldable pub remap_tcm : Cpu → (value mode : ℕ) → Core D → Core D
  remap_tcm Cpu.arm7 value mode c = undefined c
  remap_tcm Cpu.arm9 value mode c =
      let base = value / 2 ^ 12 % 2 ^ 20 * 2 ^ 12 in
      let end_ = u32 (base + u32 (512 * 2 ^ (value / 2 % 2 ^ 5))) in
      let moved = remap Region.inst_tcm base end_ in
      switch mode
        ((0, remap Region.data_tcm base end_ c)
          ∷ (1, if base == 0 then moved c else moved (undefined c))
          ∷ [])
        (undefined c)

  -- The cases of `MCR` on the register of the system control coprocessor.
  unfoldable pub write_control : (crn crm rd c2 : ℕ) → Core D → Core D
  write_control crn crm rd c2 c =
      switch crn
        ((1, c)
          ∷ (2, c)
          ∷ (3, c)
          ∷ (5, c)
          ∷ (6, c)
          ∷ (7, c)
          ∷ (9, if crm == 1 then remap_tcm c.cpu rd c2 c else c)
          ∷ [])
        (undefined c)

  unfoldable pub mcr : (flags c2 crm crn rd c1 cp : ℕ) → Core D → Core D
  mcr flags c2 crm crn rd c1 cp c =
      if not (cp == 15) || not (c1 == 0) || rd == 15
      then undefined c
      else write_control crn crm rd c2 c
