-- ===== src/Status/Tests.antt =====
-- Tests of the status register, and an instance of each theorem about it.
use ndse_core.Base.{ℕ, ◌*◌, ◌%◌, ◌^◌, ◌≡◌, refl, arith, inl, get_or}
use ndse_core.Base.{[], ◌∷◌}
use ndse_core.Status.{Mode, EmulationContext, Processor, ctx, mode_of, written_cpsr}
use ndse_core.Status.{switch_mode, loadcpsr, storecpsr, write_cpsr, change_mode, copy_regs}
use ndse_core.Status.{x86_to_flags, mode_regs}
use ndse_core.Status.Flags.{storecpsr-loadcpsr}
use ndse_core.Status.Modes.{IsWellFormed}
use ndse_core.Status.Bank.{storecpsr-loadcpsr_mode}
use ndse_core.Status.Banked.{switch_mode-banked, switch_mode-back}
use ndse_core.Status.Numbers.{ArmMode, loadcpsr-number}
use ndse_core.Status.{with_context}

-- A context whose registers hold `n`.
abbrev filled : ℕ → EmulationContext
filled n = record {
  regs = n ∷ n ∷ n ∷ n ∷ n ∷ n ∷ n ∷ n ∷ n ∷ n ∷ n ∷ n ∷ n ∷ n ∷ n ∷ n ∷ [];
  cpsr = 0x10;
  spsr = 0;
  x86_flags = n % 2 * 2 ^ 8;
  bpre = 0;
  control_register = 0;
}

abbrev sample_context : Mode → EmulationContext
sample_context Mode.user = filled 1
sample_context Mode.fastint = filled 3
sample_context _ = filled 2

-- User mode, with other numbers in the banks of the other modes.
abbrev sample : Processor
sample = record { context = sample_context; mode = Mode.user; breaks = 0 }

sample-IsWellFormed : IsWellFormed sample
sample-IsWellFormed Mode.user = refl
sample-IsWellFormed Mode.supervisor = refl
sample-IsWellFormed Mode.abort = refl
sample-IsWellFormed Mode.undefined = refl
sample-IsWellFormed Mode.interrupt = refl
sample-IsWellFormed Mode.fastint = refl

user_to_interrupt : (loadcpsr 0x12 0xFF sample).mode ≡ Mode.interrupt
unfolding loadcpsr write_cpsr change_mode switch_mode written_cpsr mode_of
user_to_interrupt = refl

interrupt_stack : get_or (ctx (switch_mode Mode.interrupt sample)).regs 13 0 ≡ 2
unfolding switch_mode copy_regs mode_regs
interrupt_stack = refl

storecpsr-loadcpsr_example : storecpsr (loadcpsr 0xF8000000 0xFF000000 sample) ≡ 0xF0000010
unfolding written_cpsr
storecpsr-loadcpsr_example =
    storecpsr-loadcpsr 0xF8000000 0xFF000000 sample (omega arith) (inl refl)

switch_mode-back_example :
    let back = ctx (
      switch_mode Mode.user
        (with_context Mode.fastint (filled 7) (switch_mode Mode.fastint sample))) in
    (get_or back.regs 8 0 ≡ 1) × (back.cpsr ≡ 0x10)
switch_mode-back_example =
    switch_mode-back Mode.fastint sample (filled 7) 8 sample-IsWellFormed refl (λ e. ground arith)
      (omega arith)

switch_mode-banked_example :
    (get_or (ctx (switch_mode Mode.fastint sample)).regs 8 0 ≡ 3)
    × ((ctx (switch_mode Mode.fastint sample)).cpsr ≡ 0x10)
switch_mode-banked_example =
    switch_mode-banked Mode.fastint sample 8 sample-IsWellFormed (omega arith)

loadcpsr-number_example :
    let q = loadcpsr 0x17 0xFF sample in
    (q.mode ≡ Mode.user) × (q.breaks ≡ 1) × ((ctx q).cpsr % 32 ≡ 0x17)
loadcpsr-number_example = loadcpsr-number ArmMode.abt 0x17 0xFF sample (omega arith) refl refl

-- The flags written are N, Z, C and V; those read back are the carry that fast interrupt mode had.
storecpsr-loadcpsr_mode_example : storecpsr (loadcpsr 0xF0000011 0xFF0000FF sample) ≡ 0x20000011
unfolding written_cpsr mode_of x86_to_flags
storecpsr-loadcpsr_mode_example =
    storecpsr-loadcpsr_mode 0xF0000011 0xFF0000FF sample Mode.fastint (omega arith) refl
      (λ e. ground arith)
