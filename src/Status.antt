-- ===== src/Status.antt =====
-- The status register and the processor modes: `loadcpsr` and `storecpsr` of Core/HLE.cpp over the
-- contexts of Core/ArmContext.h, Core/CPUMode.h and Core/Processor.h.
pub mod Modes
pub mod Bank
pub mod Banked
pub mod Numbers
pub mod Flags
mod Tests
use Prim.Native.Nat.{bit_or, bit_and}
use ndse_core.Base.{ℕ, zero, suc, ◌+◌, ◌-◌, ◌*◌, ◌/◌, ◌%◌, ◌^◌, ◌==◌, Bool, true, false}
use ndse_core.Base.{Option, none, some, List, get_or, set, if◌then◌else◌, switch, ltb, u32}
use ndse_core.Base.{[], ◌∷◌}

-- `cpu_mode`
pub data Mode : Type 0 where
  user supervisor abort undefined interrupt fastint : Mode

-- `emulation_context`
pub record EmulationContext : Type 0 where
  pub regs : List ℕ
  pub cpsr : ℕ
  pub spsr : ℕ
  pub x86_flags : ℕ
  pub bpre : ℕ
  pub control_register : ℕ

-- The static state of `processor<T>`, and how often `DebugBreak_` stopped the program.
pub record Processor : Type 0 where
  pub context : Mode → EmulationContext
  pub mode : Mode
  pub breaks : ℕ

abbrev pub mode_index : Mode → ℕ
mode_index Mode.user = 0
mode_index Mode.supervisor = 1
mode_index Mode.abort = 2
mode_index Mode.undefined = 3
mode_index Mode.interrupt = 4
mode_index Mode.fastint = 5

abbrev pub same_mode : Mode → Mode → Bool
same_mode a b = mode_index a == mode_index b

-- `ctx()`
abbrev pub ctx : Processor → EmulationContext
ctx p = p.context p.mode

abbrev pub with_context : Mode → EmulationContext → Processor → Processor
with_context m c p = record p { context = λ k. if same_mode k m then c else p.context k }

-- How many registers a mode shares with the others, from R0 on.
unfoldable pub mode_regs : Mode → ℕ
mode_regs Mode.user = 15
mode_regs Mode.fastint = 8
mode_regs _ = 13

-- The switch of `loadcpsr` on the mode bits.
unfoldable pub mode_of : ℕ → Option Mode
mode_of bits =
    switch bits
      ((0x11, some Mode.fastint)
        ∷ (0x12, some Mode.interrupt)
        ∷ (0x1B, some Mode.undefined)
        ∷ (0x14, some Mode.abort)
        ∷ (0x13, some Mode.supervisor)
        ∷ (0x1F, some Mode.user)
        ∷ (0x10, some Mode.user)
        ∷ [])
      none

-- N, Z, C and V go to the bits 15, 14, 8 and 0 of the x86 flags.
unfoldable pub flags_to_x86 : ℕ → ℕ
flags_to_x86 flags =
    bit_and (bit_or (bit_or (flags / 2 ^ 16) (flags / 2 ^ 21)) (flags / 2 ^ 28)) 0xC101

unfoldable pub x86_to_flags : ℕ → ℕ
x86_to_flags x86_flags =
    let f = bit_and x86_flags 0xC101 in
    let shifted = bit_or (bit_or (u32 (f * 2 ^ 16)) (u32 (f * 2 ^ 21))) (u32 (f * 2 ^ 28)) in
    bit_and shifted 0xF8000000

-- The two parts that the source joins by `|` share no bit, so the union is a sum.
unfoldable pub storecpsr : Processor → ℕ
storecpsr p = (ctx p).cpsr % 2 ^ 27 + x86_to_flags (ctx p).x86_flags

-- `for (i = 0; i < m; i++) new_mode.regs[i] = old_mode.regs[i]`
unfoldable pub copy_regs : ℕ → (old new : List ℕ) → List ℕ
copy_regs zero old new = new
copy_regs (suc m) old new = set (copy_regs m old new) m (get_or old m 0)

abbrev pub shared_regs : Mode → Mode → ℕ
shared_regs a b = if ltb (mode_regs b) (mode_regs a) then mode_regs b else mode_regs a

unfoldable pub switch_mode : Mode → Processor → Processor
switch_mode m p =
    let old = ctx p in
    let new = p.context m in
    let copied = copy_regs (shared_regs p.mode m) old.regs new.regs in
    let moved : EmulationContext = record new {
      regs = set copied 15 (get_or old.regs 15 0);
      cpsr = old.cpsr;
    } in
    record (with_context m moved p) { mode = m }

-- `cpsr = cpsr & ~mask | value & mask`, for a mask of 32 bits.
unfoldable pub written_cpsr : (value mask cpsr : ℕ) → ℕ
written_cpsr value mask cpsr = bit_or (bit_and cpsr (2 ^ 32 - 1 - mask)) (bit_and value mask)

-- The first half of `loadcpsr`: the register and its copy in the x86 flags.
unfoldable pub write_cpsr : (value mask : ℕ) → Processor → Processor
write_cpsr value mask p =
    let c = ctx p in
    let cpsr = written_cpsr value mask c.cpsr in
    let synced =
      if mask / 2 ^ 27 % 32 == 0 then c.x86_flags else flags_to_x86 (cpsr / 2 ^ 27 % 32 * 2 ^ 27) in
    let c' : EmulationContext = record c { cpsr = cpsr; x86_flags = synced } in
    with_context p.mode c' p

unfoldable pub change_mode : Option Mode → Processor → Processor
change_mode none p = record p { breaks = p.breaks + 1 }
change_mode (some m) p = if same_mode p.mode m then p else switch_mode m p

unfoldable pub loadcpsr : (value mask : ℕ) → Processor → Processor
loadcpsr value mask p =
    let p' = write_cpsr value mask p in
    if mask % 32 == 0 then p' else change_mode (mode_of ((ctx p').cpsr % 32)) p'
