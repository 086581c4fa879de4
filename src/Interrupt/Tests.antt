-- ===== src/Interrupt/Tests.antt =====
-- Tests of the dispatch of interrupts, and an instance of each theorem about it.
use ndse_core.Base.{ℕ, ◌+◌, ◌^◌, ◌≡◌, refl, arith, false, List, [], ◌∷◌, get_or}
use ndse_core.Status.{Mode, EmulationContext, ctx, mode_of, loadcpsr, with_context}
use ndse_core.Status.{change_mode, write_cpsr, written_cpsr, switch_mode, copy_regs, mode_regs}
use ndse_core.Interrupt.{InterruptState, switch_and_invoke, poll_process9, poll_process7}
use ndse_core.Interrupt.Dispatch.{IsSameContext, poll_process-IsSameContext}
use ndse_core.Interrupt.Serve.{
  pending, serve, serve_all, KeepsIe, IsBelow, IsAbove, poll_process-serve_all, poll_process-serves,
}

abbrev user_context : EmulationContext
user_context = record {
  regs = 0 ∷ 1 ∷ 2 ∷ 3 ∷ 4 ∷ 5 ∷ 6 ∷ 7 ∷ 8 ∷ 9 ∷ 10 ∷ 11 ∷ 12 ∷ 13 ∷ 14 ∷ 15 ∷ [];
  cpsr = 0x10;
  spsr = 0;
  x86_flags = 0;
  bpre = 0;
  control_register = 0;
}

-- User mode, with the interrupts 0, 2 and 18 signaled and 0 and 18 enabled.
abbrev sample_state : InterruptState
sample_state = record {
  processor = record { context = λ m. user_context; mode = Mode.user; breaks = 0 };
  signaled = 2 ^ 0 + 2 ^ 2 + 2 ^ 18;
  inside = false;
  ime = 1;
  ie = 2 ^ 0 + 2 ^ 18;
  if_flags = 0;
  irq_handler = 0x2000;
}

-- A handler that leaves the interrupt mode and spoils the user's registers.
abbrev spoiling : ℕ → InterruptState → InterruptState
spoiling addr m =
    let p = loadcpsr 0x1F 0x1F m.processor in
    record m { processor = with_context p.mode (record (ctx p) { regs = addr ∷ [] }) p }

spoiling-KeepsIe : KeepsIe spoiling
spoiling-KeepsIe addr m = refl

sample_pending : pending 32 0 sample_state.signaled sample_state.ie ≡ 0 ∷ 18 ∷ []
unfolding pending
sample_pending = refl

-- The handler starts at the address given, and the interrupted mode gets its R15 back.
newer_version :
    get_or (ctx (switch_and_invoke (λ addr m. m) 0x2000 sample_state).processor).regs 15 0 ≡ 15
unfolding switch_and_invoke loadcpsr change_mode mode_of write_cpsr written_cpsr switch_mode
    copy_regs mode_regs
newer_version = refl

poll_process-IsSameContext_example :
    IsSameContext sample_state.processor (poll_process9 spoiling sample_state).processor
    × IsSameContext sample_state.processor (poll_process7 spoiling sample_state).processor
unfolding mode_of
poll_process-IsSameContext_example = poll_process-IsSameContext spoiling sample_state refl

poll_process-serve_all_example :
    let cleared : InterruptState = record sample_state { signaled = 0 } in
    let served = serve spoiling 18 (serve spoiling 0 cleared) in
    (poll_process9 spoiling sample_state ≡ served) × (poll_process7 spoiling sample_state ≡ served)
unfolding serve_all pending
poll_process-serve_all_example =
    poll_process-serve_all spoiling sample_state spoiling-KeepsIe refl refl

poll_process-serves_example :
    (before : List ℕ) × (after : List ℕ) × IsBelow 18 before
    × IsAbove 18 after
    × let last =
        serve_all spoiling after
          (serve spoiling 18 (serve_all spoiling before (record sample_state { signaled = 0 }))) in
      (poll_process9 spoiling sample_state ≡ last) × (poll_process7 spoiling sample_state ≡ last)
poll_process-serves_example =
    poll_process-serves spoiling sample_state 18 spoiling-KeepsIe refl refl (omega arith) refl refl
