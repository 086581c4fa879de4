-- ===== src/Regs/Tests.antt =====
-- Tests of the register files, and an instance of each theorem about them.
use ndse_core.Base.{ℕ, suc, ◌%◌, ◌^◌, ◌≡◌, refl, arith, false, [], ◌∷◌, replicate}
use ndse_core.Ipc.{Cpu, IoRegs}
use ndse_core.Regs.{
  RegisterFile, IoState, Devices, regs_store32, regs_store16, regs_store8, regs_load32, regs_load8u,
  store32_arm9, store_current, store_vramcnt, run_callbacks,
}
use ndse_core.Regs.Plain.{IsPlain, regs_load8u-regs_store8, regs_load32-ipcsync}

abbrev idle_regs : IoRegs
idle_regs = record {
  ipc = 0;
  ipc_fifocnt = 0;
  ipc_fifo = record { readpos = 0; writepos = 0; queue = replicate 16 0 };
}

abbrev idle_file : RegisterFile
idle_file = record {
  words = λ i. 0x11223344;
  dirty_pages = λ p. false;
  readcbs = [];
  writecbs = [];
}

-- A machine whose world counts how often video memory is remapped.
abbrev counted : Devices ℕ
counted = record { start_dma = λ i words n. (words, n); remap = λ words n. suc n }

abbrev idle_state : IoState ℕ
idle_state = record {
  machine = record {
    regs7 = idle_regs;
    regs9 = idle_regs;
    signaled7 = 0;
    signaled9 = 0;
    dispstat = 0;
    breaks = 0;
  };
  file7 = idle_file;
  file9 = idle_file;
  spi = record {
    spicnt = 0;
    spidata = 0;
    spidatanum = 0;
    spi_in = 0 ∷ 0 ∷ 0 ∷ 0 ∷ [];
    tx = 0;
    ty = 0;
    dtx = 0;
    dty = 0;
    breaks = 0;
  };
  world = 0;
}

-- The register IME.
abbrev ime : ℕ
ime = 0x4000208

ime-IsPlain : IsPlain ime
ime-IsPlain = ground arith

vramcnt_remaps : (regs_store32 counted Cpu.arm9 0x4000240 0x81 idle_state).world ≡ 1
unfolding regs_store32 store32_arm9 store_vramcnt run_callbacks
vramcnt_remaps = refl

-- A store to the upper halfword replaces the lower one by what the upper one held.
upper_half_store :
    (regs_store16 counted Cpu.arm9 0x400020A 0x5566 idle_state).file9.words 0x82 ≡ 0x55661122
unfolding regs_store16 regs_store32 store32_arm9 store_current run_callbacks
upper_half_store = refl

regs_load8u-regs_store8_example :
    (regs_load8u Cpu.arm7 0x4000208 (regs_store8 counted Cpu.arm7 0x4000209 7 idle_state)).0 ≡ 0x44
regs_load8u-regs_store8_example =
    regs_load8u-regs_store8 counted Cpu.arm7 0x4000209 0x4000208 7 idle_state (omega arith)
      ime-IsPlain (refl, refl)

regs_load32-ipcsync_example :
    (regs_load32 Cpu.arm9 0x4000180 (regs_store32 counted Cpu.arm7 0x4000180 0x500 idle_state)).0
      % 2 ^ 4
    ≡ 5
regs_load32-ipcsync_example =
    regs_load32-ipcsync counted Cpu.arm7 0x4000180 0x4000180 0x500 idle_state refl refl (refl, refl)
      (refl, refl)
