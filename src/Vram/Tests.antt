-- ===== src/Vram/Tests.antt =====
-- Tests of the banks of video memory, and an instance of each theorem about them.
use ndse_core.Base.{ℕ, ◌+◌, ◌≡◌, refl, switch, [], ◌∷◌}
use ndse_core.Ipc.{Cpu}
use ndse_core.MemMap.{Region, MapCall}
use ndse_core.Vram.{init, remap, map_vcnt, map_bank, unmap_bank, target, bank_at, bank_c, bank_d}
use ndse_core.Base.{false, true, ◌==◌, ◌%◌, ◌^◌}
use ndse_core.Memory.{Memory, half}
use ndse_core.Memory.{load16u}
use ndse_core.Vram.Access.{vram_region}
use ndse_core.Vram.Placed.{placed}
use ndse_core.Vram.Replay.{AreBytes, passes, passes-replay}
use ndse_core.Base.{◌<◌, ◌&◌, switch-holds, arith, some}

-- Bank A at its second slot for backgrounds, bank C for the ARM7, bank I for the ARM9.
abbrev registers : ℕ → ℕ
registers k = switch k ((0, 0x89) ∷ (2, 0x82) ∷ (9, 0x81) ∷ []) 0

-- Bank I's register maps the memory of bank H.
first_pass :
    (remap (λ k. 0) registers init).calls
    ≡ (Cpu.arm9, MapCall.map_at Region.vram_a 0x30100)
      ∷ (Cpu.arm7, MapCall.map_at Region.vram_c 0x30000)
      ∷ (Cpu.arm9, MapCall.map_at Region.vram_h 0x31000)
      ∷ []
unfolding remap map_vcnt map_bank unmap_bank target bank_at bank_c bank_d
first_pass = refl

-- The same, but bank C for the ARM9.
abbrev later_registers : ℕ → ℕ
later_registers k = switch k ((0, 0x89) ∷ (2, 0x81) ∷ (9, 0x81) ∷ []) 0

both_passes-AreBytes : AreBytes (registers ∷ later_registers ∷ [])
both_passes-AreBytes = (
  λ k.
      switch-holds (λ x. x < 256) k ((0, 0x89) ∷ (2, 0x82) ∷ (9, 0x81) ∷ []) 0
        (omega arith & omega arith & omega arith & omega arith),
  (
    λ k.
        switch-holds (λ x. x < 256) k ((0, 0x89) ∷ (2, 0x81) ∷ (9, 0x81) ∷ []) 0
          (omega arith & omega arith & omega arith & omega arith),
    tt,
  ),
)

-- Bank C stays with the ARM7 too.
passes-replay_example :
    placed Cpu.arm7 2 (passes (λ k. 0) (registers ∷ later_registers ∷ []) init) ≡ some 0x30000
passes-replay_example =
    passes-replay (λ k. 0) (registers ∷ later_registers ∷ []) 2 Cpu.arm7 (omega arith)
      both_passes-AreBytes

abbrev video_memory : Memory Unit
video_memory = record {
  map = λ p. p;
  block = λ id. record {
    flags = record {
      readprot = false;
      writeprot = false;
      execprot = false;
      invalid = false;
      dirty_j7 = false;
      dirty_j9 = false;
      dirty_reactor = false;
      dirty_vram = false;
      dirty_sram = false;
      accesshandler = id == 1;
      writeprot8 = true;
    };
    mem = λ i. (id + i) % 2 ^ 8;
  };
  device = tt;
  breaks = 0;
}

-- The handler reads the page that the ARM9's map has, here the next one.
video_load : (load16u (vram_region (λ p. p + 1)) 0x206 video_memory).0 ≡ 0x0908
unfolding load16u half
video_load = refl
