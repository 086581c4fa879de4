-- ===== src/Ipc/Tests.antt =====
-- The interprocessor FIFOs of Core/IORegs.cpp from the state after start-up.
use ndse_core.Base.{◌≡◌, ◌≢◌, refl, arith, List, [], ◌∷◌, none, some}
use ndse_core.Base.{replicate}
use ndse_core.Fifo.{Fifo}
use ndse_core.Fifo.Refine.{IsValid}
use ndse_core.Ipc.{Cpu, IoRegs, Machine, transfer_load32}
use ndse_core.Ipc.Link.{pending, receive_underflow}
use ndse_core.Ipc.Queue.{Op, run, serve, run_refines}

-- `ioregs::ioregs`
abbrev fresh_fifo : Fifo
fresh_fifo = record { readpos = 0; writepos = 0; queue = replicate 16 0 }

abbrev fresh_regs : IoRegs
fresh_regs = record { ipc = 0; ipc_fifocnt = 0; ipc_fifo = fresh_fifo }

abbrev fresh : Machine
fresh = record {
  regs7 = fresh_regs;
  regs9 = fresh_regs;
  signaled7 = 0;
  signaled9 = 0;
  dispstat = 0;
  breaks = 0;
}

-- ARM7 has sent 5.
abbrev sent_fifo : Fifo
sent_fifo = record { readpos = 0; writepos = 1; queue = 5 ∷ replicate 15 0 }

abbrev sent : Machine
sent = record fresh { regs7 = record fresh_regs { ipc_fifo = sent_fifo } }

fresh-IsValid : IsValid fresh_fifo
fresh-IsValid = omega arith

sent-IsValid : IsValid sent_fifo
sent-IsValid = omega arith

sent-pending : pending Cpu.arm7 sent ≢ []
sent-pending h = cc

abbrev script : List Op
script = Op.send 5 ∷ Op.send 6 ∷ Op.receive ∷ Op.send 7 ∷ Op.receive ∷ []

served : serve script [] ≡ some (some 5 ∷ some 6 ∷ [], 7 ∷ [])
unfolding serve
served = refl

receive_underflow_example :
    let r = transfer_load32 Cpu.arm9 0x04100000 fresh in
    (r.0 ≡ none) × (r.1.breaks ≡ 1) × (pending Cpu.arm7 r.1 ≡ [])
receive_underflow_example = receive_underflow Cpu.arm7 0x04100000 fresh refl fresh-IsValid refl

run_refines_example :
    ((run Cpu.arm7 script fresh).0 ≡ some 5 ∷ some 6 ∷ [])
    × (pending Cpu.arm7 (run Cpu.arm7 script fresh).1 ≡ 7 ∷ [])
    × ((run Cpu.arm7 script fresh).1.breaks ≡ 0)
run_refines_example = run_refines Cpu.arm7 script fresh fresh-IsValid served
