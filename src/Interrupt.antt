-- ===== src/Interrupt.antt =====
-- The dispatch of interrupts: `interrupt<T>::poll_process`, `switch_and_invoke_old` and
-- `switch_and_invoke` of Core/Interrupt.h. The run of the handler, `HLE<T>::invoke`, is the
-- parameter `invoke`: any function on the state.
pub mod Dispatch
pub mod Serve
mod Tests
use ndse_core.Base.{ℕ, zero, suc, ◌^◌, ◌==◌, Bool, true, false, not, ◌||◌, bit, bit_and}
use ndse_core.Base.{if◌then◌else◌, get_or, set}
use ndse_core.Status.{Processor, ctx, with_context, loadcpsr}

-- The processor, `signaled`, `inside`, the registers IME (0x208), IE (0x210) and IF (0x214), and the
-- word `irq_handler` of the `wstack` that the guest keeps in its memory.
pub record InterruptState : Type 0 where
  pub processor : Processor
  pub signaled : ℕ
  pub inside : Bool
  pub ime : ℕ
  pub ie : ℕ
  pub if_flags : ℕ
  pub irq_handler : ℕ

-- `ctx.regs[15] = addr`
abbrev pub set_pc : ℕ → Processor → Processor
set_pc addr p = with_context p.mode (record (ctx p) { regs = set (ctx p).regs 15 addr }) p

module _ (invoke : ℕ → InterruptState → InterruptState) where
  -- `inside = true; HLE<T>::invoke(addr, &ctx); inside = false;`
  abbrev pub invoke_inside : ℕ → InterruptState → InterruptState
  invoke_inside addr m =
      let done = invoke addr (record m { inside = true }) in record done { inside = false }

  -- The version in use: it runs the handler in the interrupt mode and puts the whole context back.
  unfoldable pub switch_and_invoke_old : ℕ → InterruptState → InterruptState
  switch_and_invoke_old addr m =
      let backup = ctx m.processor in
      let entered = set_pc addr (loadcpsr 0x12 0x1F m.processor) in
      let done = invoke_inside addr (record m { processor = entered }) in
      let back = loadcpsr backup.cpsr 0x1F done.processor in
      record done { processor = with_context back.mode backup back }

  -- The version that runs the handler in the bank of the interrupt mode; nothing calls it.
  unfoldable pub switch_and_invoke : ℕ → InterruptState → InterruptState
  switch_and_invoke addr m =
      let cpsr = (ctx m.processor).cpsr in
      let p = loadcpsr 0x12 0x1F m.processor in
      let saved = with_context p.mode (record (ctx p) { spsr = cpsr }) p in
      let pc = get_or (ctx p).regs 15 0 in
      let done = invoke_inside addr (record m { processor = set_pc addr saved }) in
      record done { processor = set_pc pc (loadcpsr cpsr 0x1F done.processor) }

  -- One round of the loop of `poll_process`.
  unfoldable pub poll_mask : (intr mask : ℕ) → InterruptState → InterruptState
  poll_mask intr mask m =
      let itr = bit_and (bit_and intr mask) m.ie in
      if itr == 0 then m else switch_and_invoke_old m.irq_handler (record m { if_flags = itr })

  -- `for (mask = 1; mask; mask <<= 1)`: the round `i` has the mask `2 ^ i`, and `n` rounds are left.
  unfoldable pub poll_masks : (n i intr : ℕ) → InterruptState → InterruptState
  poll_masks zero i intr m = m
  poll_masks (suc n) i intr m = poll_masks n (suc i) intr (poll_mask intr (2 ^ i) m)

  -- `if (inside) return; if (!(IME & 1)) return;`
  abbrev pub returns_early : InterruptState → Bool
  returns_early m = m.inside || not (bit m.ime 0)

  -- `interrupt<_ARM9>::poll_process`
  unfoldable pub poll_process9 : InterruptState → InterruptState
  poll_process9 m =
      if returns_early m then m else poll_masks 32 0 m.signaled (record m { signaled = 0 })

  -- `interrupt<_ARM7>::poll_process`
  unfoldable pub poll_process7 : InterruptState → InterruptState
  poll_process7 m =
      if returns_early m
      then m
      else poll_masks 32 0 (bit_and m.signaled m.ie) (record m { signaled = 0 })
