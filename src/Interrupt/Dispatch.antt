-- ===== src/Interrupt/Dispatch.antt =====
-- What an interrupt leaves of the program it interrupts (Core/Interrupt.h).
use ndse_core.Base.{ℕ, zero, suc, ◌-◌, ◌%◌, ◌^◌, ◌==◌, ◌≡◌, refl, sym, ap, ◌∙◌, arith, some}
use ndse_core.Base.{if-holds, bit_and}
use ndse_core.Base.Bits.{replaced_low5}
use ndse_core.Status.{Mode, EmulationContext, Processor, ctx, with_context, mode_of, loadcpsr}
use ndse_core.Status.{written_cpsr}
use ndse_core.Status.Bank.{loadcpsr-mode}
use ndse_core.Status.Flags.{written, same_mode_refl}
use ndse_core.Interrupt.{
  InterruptState, set_pc, invoke_inside, switch_and_invoke_old, poll_mask, poll_masks,
  returns_early, poll_process9, poll_process7,
}

-- The mode bits of the status register name the current mode.
abbrev pub IsInMode : Processor → Type 0
IsInMode p = mode_of ((ctx p).cpsr % 32) ≡ some p.mode

written-mode : (value : ℕ) (p : Processor) → written value 0x1F p % 32 ≡ value % 32
unfolding written_cpsr
written-mode value p = replaced_low5 (ctx p).cpsr value (2 ^ 32 - 1 - 0x1F) 0x1F refl refl

-- A load of mode bits enters the mode they name, from whichever mode.
loadcpsr-enters :
    (value : ℕ) (m : Mode) (p : Processor)
    → mode_of (value % 32) ≡ some m
    → (loadcpsr value 0x1F p).mode ≡ m
loadcpsr-enters value m p e =
    (loadcpsr-mode value 0x1F p m (omega arith) (ap mode_of (written-mode value p) ∙ e)).0

ctx-with_context : (c : EmulationContext) (p : Processor) → ctx (with_context p.mode c p) ≡ c
ctx-with_context c p = rw (same_mode_refl p.mode) refl

-- Two processors that run the same context in the same mode.
abbrev pub IsSameContext : Processor → Processor → Type 0
IsSameContext p q = (q.mode ≡ p.mode) × (ctx q ≡ ctx p)

IsSameContext-trans :
    (p q r : Processor) → IsSameContext p q → IsSameContext q r → IsSameContext p r
IsSameContext-trans p q r h k = (k.0 ∙ h.0, k.1 ∙ h.1)

IsSameContext-IsInMode : (p q : Processor) → IsSameContext p q → IsInMode p → IsInMode q
IsSameContext-IsInMode p q h e = ap (λ c. mode_of (c.cpsr % 32)) h.1 ∙ e ∙ ap some (sym h.0)

module _ (invoke : ℕ → InterruptState → InterruptState) where
  -- Whatever the handler did, the interrupted mode runs on with the context it had.
  pub switch_and_invoke_old-IsSameContext :
      (addr : ℕ) (m : InterruptState)
      → IsInMode m.processor
      → IsSameContext m.processor (switch_and_invoke_old invoke addr m).processor
  unfolding switch_and_invoke_old
  switch_and_invoke_old-IsSameContext addr m e =
      let backup = ctx m.processor in
      let entered = set_pc addr (loadcpsr 0x12 0x1F m.processor) in
      let done = invoke_inside invoke addr (record m { processor = entered }) in
      let back = loadcpsr backup.cpsr 0x1F done.processor in
      (loadcpsr-enters backup.cpsr m.processor.mode done.processor e, ctx-with_context backup back)

  poll_mask-IsSameContext :
      (intr mask : ℕ) (m : InterruptState)
      → IsInMode m.processor
      → IsSameContext m.processor (poll_mask invoke intr mask m).processor
  unfolding poll_mask
  poll_mask-IsSameContext intr mask m e =
      let itr = bit_and (bit_and intr mask) m.ie in
      let raised : InterruptState = record m { if_flags = itr } in
      if-holds (λ (q : InterruptState). IsSameContext m.processor q.processor) (itr == 0)
        (refl, refl) (switch_and_invoke_old-IsSameContext m.irq_handler raised e)

  poll_masks-IsSameContext :
      (n i intr : ℕ) (m : InterruptState)
      → IsInMode m.processor
      → IsSameContext m.processor (poll_masks invoke n i intr m).processor
  unfolding poll_masks
  poll_masks-IsSameContext zero i intr m e = (refl, refl)
  poll_masks-IsSameContext (suc n) i intr m e =
      let next = poll_mask invoke intr (2 ^ i) m in
      let here = poll_mask-IsSameContext intr (2 ^ i) m e in
      let valid = IsSameContext-IsInMode m.processor next.processor here e in
      IsSameContext-trans m.processor next.processor
        (poll_masks invoke n (suc i) intr next).processor here
        (poll_masks-IsSameContext n (suc i) intr next valid)

  -- A poll of either processor, whatever the handlers do to any context or mode and however many it
  -- runs, leaves the interrupted mode current with exactly the context it had, where the mode bits
  -- of the status register name that mode.
  pub poll_process-IsSameContext :
      (m : InterruptState)
      → IsInMode m.processor
      → IsSameContext m.processor (poll_process9 invoke m).processor
        × IsSameContext m.processor (poll_process7 invoke m).processor
  unfolding poll_process9 poll_process7
  poll_process-IsSameContext m e =
      let cleared : InterruptState = record m { signaled = 0 } in
      (
        if-holds (λ (q : InterruptState). IsSameContext m.processor q.processor)
            (returns_early invoke m) (refl, refl)
            (poll_masks-IsSameContext 32 0 m.signaled cleared e),
        if-holds (λ (q : InterruptState). IsSameContext m.processor q.processor)
            (returns_early invoke m) (refl, refl)
            (poll_masks-IsSameContext 32 0 (bit_and m.signaled m.ie) cleared e),
      )
