-- ===== src/Regs.antt =====
-- The register files of both processors: `REGISTERS9_1` and `REGISTERS7_1` of Core/IORegs.cpp, at the
-- addresses they are mapped at. The DMA transfer and the remapping of video memory that a store can
-- start are parameters, as are the callbacks of a front end.
pub mod Plain
mod Tests
use ndse_core.Base.{ℕ, ◌+◌, ◌-◌, ◌*◌, ◌/◌, ◌%◌, ◌^◌, ◌==◌, Bool, true, false, ◌||◌}
use ndse_core.Base.{List, [], ◌∷◌, ◌++◌, if◌then◌else◌, switch, ltb}
use ndse_core.Ipc.{Cpu, Machine, regs, get_ipc, get_fifocnt, store_ipcsync, store_ipcfifosend}
use ndse_core.Spi.{Spi, set_spicnt, set_spidat}

-- A callback gets the address and the value, and can change the value.
abbrev pub IoCallback : Type 0
IoCallback = ℕ → ℕ → ℕ

-- The 8 KB of one file by word, which of its pages are dirty, and the callbacks of its `ioregs`.
pub record RegisterFile : Type 0 where
  pub words : ℕ → ℕ
  pub dirty_pages : ℕ → Bool
  pub readcbs : List IoCallback
  pub writecbs : List IoCallback

-- Both files, what they share with the interprocessor communication, the bus of the ARM7, and the
-- rest of the machine.
pub record IoState (W : Type 0) : Type 0 where
  pub machine : Machine
  pub file7 : RegisterFile
  pub file9 : RegisterFile
  pub spi : Spi
  pub world : W

-- `start_dma` on the registers from a word on, which it can change, and `vram::remap`.
pub record Devices (W : Type 0) : Type 0 where
  pub start_dma : (word : ℕ) → (ℕ → ℕ) → W → (ℕ → ℕ) × W
  pub remap : (ℕ → ℕ) → W → W

-- `ioregs::add_callback` with both callbacks given.
unfoldable pub add_callback : (r w : IoCallback) → RegisterFile → RegisterFile
add_callback r w f = record f { readcbs = f.readcbs ++ r ∷ []; writecbs = f.writecbs ++ w ∷ [] }

-- `readcb` and `writecb`
unfoldable pub run_callbacks : List IoCallback → (addr value : ℕ) → ℕ
run_callbacks [] addr value = value
run_callbacks (f ∷ fs) addr value = run_callbacks fs addr (f addr value)

abbrev pub word_of : ℕ → ℕ
word_of addr = addr % 2 ^ 13 / 4

abbrev pub set_word : (i value : ℕ) → RegisterFile → RegisterFile
set_word i value f = record f { words = λ k. if k == i then value else f.words k }

abbrev pub mark_dirty : ℕ → RegisterFile → RegisterFile
mark_dirty i f = record f { dirty_pages = λ p. if p == i / 2 ^ 7 then true else f.dirty_pages p }

-- `endian_access`: a word with its half or byte at an address replaced.
abbrev pub with_half : (addr value word : ℕ) → ℕ
with_half addr value word =
    if addr / 2 % 2 == 0
    then word / 2 ^ 16 % 2 ^ 16 * 2 ^ 16 + value % 2 ^ 16
    else value % 2 ^ 16 * 2 ^ 16 + word % 2 ^ 16

abbrev pub with_byte : (addr value word : ℕ) → ℕ
with_byte addr value word =
    let k = addr % 4 in
    word / 2 ^ (8 * k + 8) * 2 ^ (8 * k + 8) + value % 2 ^ 8 * 2 ^ (8 * k) + word % 2 ^ (8 * k)

-- The word that `store16` reads at the halfword's address. Of the next word it holds what `with_half`
-- replaces.
abbrev pub word_from_half : (addr word : ℕ) → ℕ
word_from_half addr word = if addr / 2 % 2 == 0 then word else word / 2 ^ 16

module _ {W : Type 0} where
  abbrev pub file : Cpu → IoState W → RegisterFile
  file Cpu.arm7 s = s.file7
  file Cpu.arm9 s = s.file9

  abbrev pub with_file : Cpu → RegisterFile → IoState W → IoState W
  with_file Cpu.arm7 f s = record s { file7 = f }
  with_file Cpu.arm9 f s = record s { file9 = f }

  -- `if (current != value)`: the end of `REGISTERS7_1::store32`.
  unfoldable pub store_current : Cpu → (i value : ℕ) → IoState W → IoState W
  store_current cpu i value s =
      if (file cpu s).words i == value
      then s
      else with_file cpu (mark_dirty i (set_word i value (file cpu s))) s

  -- The cases 0x1C0 and 0x1C2 of `REGISTERS7_1::store16`.
  unfoldable pub store_spi_half : (addr value : ℕ) → IoState W → IoState W
  store_spi_half addr value s =
      let s' : IoState W = record s {
        spi = if addr / 2 % 2 == 0 then set_spicnt value s.spi else set_spidat value s.spi;
      } in
      let i = word_of addr in
      let word = s.file7.words i in
      let current = word / 2 ^ (16 * (addr / 2 % 2)) % 2 ^ 16 in
      if current == value
      then s'
      else record s' { file7 = mark_dirty i (set_word i (with_half addr value word) s.file7) }

  -- `REGISTERS7_1::store32`
  unfoldable pub store32_arm7 : (addr value : ℕ) → IoState W → IoState W
  store32_arm7 addr value0 s =
      let value = run_callbacks s.file7.writecbs addr value0 in
      let i = word_of addr in
      switch (addr % 2 ^ 13)
        ((
          0x180,
          store_current Cpu.arm7 i value
              (record s { machine = store_ipcsync Cpu.arm7 value s.machine }),
        )
          ∷ (
            0x188,
            store_current Cpu.arm7 i value
                (record s { machine = store_ipcfifosend Cpu.arm7 value s.machine }),
          )
          ∷ (
            0x1C0,
            store_spi_half (addr + 2) (value / 2 ^ 16 % 2 ^ 16)
                (store_spi_half addr (value % 2 ^ 16) s),
          )
          ∷ [])
        (store_current Cpu.arm7 i value s)

  module _ (devices : Devices W) where
    -- The end of `REGISTERS9_1::store32`, with `remap_vram` set.
    unfoldable pub store_vramcnt : (i value : ℕ) → IoState W → IoState W
    store_vramcnt i value s =
        if s.file9.words i == value
        then s
        else let f = set_word i value s.file9 in
          record s { file9 = mark_dirty i f; world = devices.remap f.words s.world }

    -- The cases that start a DMA transfer: its registers begin two words before the control word.
    unfoldable pub store_dmacnt : (i value : ℕ) → IoState W → IoState W
    store_dmacnt i value s =
        let f = set_word i value s.file9 in
        let done = devices.start_dma (i - 2) f.words s.world in
        record s { file9 = record f { words = done.0 }; world = done.1 }

    -- `REGISTERS9_1::store32`
    unfoldable pub store32_arm9 : (addr value : ℕ) → IoState W → IoState W
    store32_arm9 addr value0 s =
        let value = run_callbacks s.file9.writecbs addr value0 in
        let i = word_of addr in
        let dma = store_dmacnt i value s in
        let vram = store_vramcnt i value s in
        switch (addr % 2 ^ 13)
          ((0xB8, dma)
            ∷ (0xC4, dma)
            ∷ (0xD0, dma)
            ∷ (0xDC, dma)
            ∷ (
              0x180,
              store_current Cpu.arm9 i value
                  (record s { machine = store_ipcsync Cpu.arm9 value s.machine }),
            )
            ∷ (
              0x188,
              store_current Cpu.arm9 i value
                  (record s { machine = store_ipcfifosend Cpu.arm9 value s.machine }),
            )
            ∷ (0x240, vram)
            ∷ (0x244, vram)
            ∷ (0x248, vram)
            ∷ [])
          (store_current Cpu.arm9 i value s)

    unfoldable pub regs_store32 : Cpu → (addr value : ℕ) → IoState W → IoState W
    regs_store32 Cpu.arm7 = store32_arm7
    regs_store32 Cpu.arm9 = store32_arm9

    abbrev pub store_merged16 : Cpu → (addr value : ℕ) → IoState W → IoState W
    store_merged16 cpu addr value s =
        let word = word_from_half addr ((file cpu s).words (word_of addr)) in
        regs_store32 cpu (addr / 4 * 4) (with_half addr value word) s

    -- `store16`
    unfoldable pub regs_store16 : Cpu → (addr value : ℕ) → IoState W → IoState W
    regs_store16 Cpu.arm9 addr value s = store_merged16 Cpu.arm9 addr value s
    regs_store16 Cpu.arm7 addr value s =
        if (addr % 2 ^ 13 == 0x1C0) || (addr % 2 ^ 13 == 0x1C2)
        then store_spi_half addr value s
        else store_merged16 Cpu.arm7 addr value s

    -- `store8`
    unfoldable pub regs_store8 : Cpu → (addr value : ℕ) → IoState W → IoState W
    regs_store8 cpu addr value s =
        regs_store32 cpu (addr / 4 * 4) (with_byte addr value ((file cpu s).words (word_of addr))) s

  -- The switch of `load32`: what the register's word becomes before the callbacks see it.
  unfoldable pub refreshed : Cpu → (addr : ℕ) → IoState W → ℕ
  refreshed cpu addr s =
      let r = regs cpu s.machine in
      let word = (file cpu s).words (word_of addr) in
      switch (addr % 2 ^ 13) ((0x180, get_ipc r) ∷ (0x184, get_fifocnt r) ∷ []) (elim cpu [
        | Cpu.arm9 ↦ word
        | Cpu.arm7 ↦ if addr % 2 ^ 13 == 0x1C0 then s.spi.spidata % 2 ^ 16 * 2 ^ 16 else word
      ])

  -- `load32`: the callbacks work on the register itself.
  unfoldable pub regs_load32 : Cpu → (addr : ℕ) → IoState W → ℕ × IoState W
  regs_load32 cpu addr s =
      let f = file cpu s in
      let value = run_callbacks f.readcbs addr (refreshed cpu addr s) in
      (value, with_file cpu (set_word (word_of addr) value f) s)

  abbrev pub load_half : Cpu → (addr : ℕ) → IoState W → ℕ × IoState W
  load_half cpu addr s =
      let r = regs_load32 cpu (addr / 4 * 4) s in (r.0 / 2 ^ (16 * (addr / 2 % 2)) % 2 ^ 16, r.1)

  -- `load16u`
  unfoldable pub regs_load16u : Cpu → (addr : ℕ) → IoState W → ℕ × IoState W
  regs_load16u Cpu.arm9 addr s = load_half Cpu.arm9 addr s
  regs_load16u Cpu.arm7 addr s =
      switch (addr % 2 ^ 13) ((0x1C0, (0, s)) ∷ (0x1C2, (s.spi.spidata, s)) ∷ [])
        (load_half Cpu.arm7 addr s)

  -- `load16s`
  unfoldable pub regs_load16s : Cpu → (addr : ℕ) → IoState W → ℕ × IoState W
  regs_load16s cpu addr s =
      let r = regs_load16u cpu addr s in
      let h = r.0 % 2 ^ 16 in (if ltb h (2 ^ 15) then h else h + 2 ^ 32 - 2 ^ 16, r.1)

  -- `load8u`
  unfoldable pub regs_load8u : Cpu → (addr : ℕ) → IoState W → ℕ × IoState W
  regs_load8u cpu addr s =
      let r = regs_load32 cpu (addr / 4 * 4) s in (r.0 / 2 ^ (8 * (addr % 4)) % 2 ^ 8, r.1)
