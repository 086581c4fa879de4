-- ===== src/Vram.antt =====
-- The banks of video memory (Core/vram.cpp): which of them the control registers map where. Log lines,
-- `invalid_vcnt` among them, are left out.
pub mod Mapping
pub mod Placed
pub mod Homes
pub mod Steps
pub mod Calls
pub mod Replay
pub mod Access
mod Tests
use ndse_core.Base.{ℕ, ◌+◌, ◌*◌, ◌/◌, ◌%◌, ◌^◌, ◌==◌, Bool, true, false, if◌then◌else◌, ltb, ◌&&◌}
use ndse_core.Base.{
  bit, bit_and, bit_or, List, [], ◌∷◌, ◌++◌, get_or, switch, Option, none, some, u32,
}
use ndse_core.Ipc.{Cpu}
use ndse_core.MemMap.{Region, MapCall}

-- `cur_maps<T>::mapping` of both processors, read below 10, and what was asked of their memory maps,
-- oldest first.
pub record Banks : Type 0 where
  pub mapping : Cpu → ℕ → ℕ
  pub calls : List (Cpu × MapCall)

abbrev pub same_cpu : Cpu → Cpu → Bool
same_cpu Cpu.arm7 Cpu.arm7 = true
same_cpu Cpu.arm9 Cpu.arm9 = true
same_cpu _ _ = false

-- `cur_maps<T>::mapping[idx] = addr`
abbrev pub set_mapping : Cpu → (idx addr : ℕ) → Banks → Banks
set_mapping t idx addr s = record s {
  mapping = λ u k. if same_cpu u t && (k == idx) then addr else s.mapping u k;
}

abbrev pub request : Cpu → MapCall → Banks → Banks
request t call s = record s { calls = s.calls ++ (t, call) ∷ [] }

unfoldable pub unmap_bank : Cpu → (idx : ℕ) → Region → Banks → Banks
unmap_bank t idx b s =
    if s.mapping t idx == 0 then s else set_mapping t idx 0 (request t (MapCall.unmap b) s)

unfoldable pub map_bank : Cpu → (idx : ℕ) → Region → (addr : ℕ) → Banks → Banks
map_bank t idx b addr s =
    if s.mapping t idx == addr
    then s
    else set_mapping t idx addr (request t (MapCall.map_at b (addr / 2 ^ 9)) (unmap_bank t idx b s))

-- The arguments of a call of `map_bank`.
abbrev pub Target : Type 0
Target = Cpu × Region × ℕ

abbrev pub on_arm9 : Region → ℕ → Option Target
on_arm9 b addr = some (Cpu.arm9, b, addr)

abbrev pub lut_fg : List ℕ
lut_fg = 0 ∷ 0x4000 ∷ 0x10000 ∷ 0x14000 ∷ []

-- `0x06000000 | (ofs << 14)` and the like.
abbrev pub slot : (base ofs : ℕ) → ℕ
slot base ofs = bit_or base (u32 (ofs * 2 ^ 14))

-- Banks C and D, whose second home is the ARM7's. The case of bank C runs on into that of bank D.
unfoldable pub bank_d : (mst ofs : ℕ) → Option Target
bank_d mst ofs =
    switch mst
      ((0, on_arm9 Region.vram_d 0x06860000)
        ∷ (1, on_arm9 Region.vram_d (slot 0x06000000 ofs))
        ∷ (2, some (Cpu.arm7, Region.vram_d, slot 0x06000000 ofs))
        ∷ (4, on_arm9 Region.vram_d 0x06600000)
        ∷ [])
      none

unfoldable pub bank_c : (mst ofs : ℕ) → Option Target
bank_c mst ofs =
    switch mst
      ((0, on_arm9 Region.vram_c 0x06840000)
        ∷ (1, on_arm9 Region.vram_c (slot 0x06000000 ofs))
        ∷ (2, some (Cpu.arm7, Region.vram_c, slot 0x06000000 ofs))
        ∷ (4, on_arm9 Region.vram_c 0x06200000)
        ∷ [])
      (bank_d mst ofs)

-- The other banks: a home for each of the modes 0, 1 and 2.
abbrev pub three_modes : Region → (mst first second third : ℕ) → Option Target
three_modes b mst first second third =
    switch mst ((0, on_arm9 b first) ∷ (1, on_arm9 b second) ∷ (2, on_arm9 b third) ∷ []) none

-- `banks[idx]`, for the indices below 9 that are used.
unfoldable pub bank_at : ℕ → Region
bank_at idx =
    switch idx
      ((0, Region.vram_a)
        ∷ (1, Region.vram_b)
        ∷ (2, Region.vram_c)
        ∷ (3, Region.vram_d)
        ∷ (4, Region.vram_e)
        ∷ (5, Region.vram_f)
        ∷ (6, Region.vram_g)
        ∷ (7, Region.vram_h)
        ∷ [])
      Region.vram_i

abbrev pub map_target : ℕ → Option Target → Banks → Banks
map_target idx none s = s
map_target idx (some (t, b, addr)) s = map_bank t idx b addr s

abbrev pub disable : ℕ → Banks → Banks
disable idx s = unmap_bank Cpu.arm9 idx (bank_at idx) (unmap_bank Cpu.arm7 idx (bank_at idx) s)

module _ (beyond : ℕ → ℕ) where
  -- `lut_fg[ofs]`; `beyond` is what lies behind the table.
  abbrev pub fg_offset : ℕ → ℕ
  fg_offset ofs = if ltb ofs 4 then get_or lut_fg ofs 0 else beyond ofs

  -- The switch of `map_vcnt` on the bank.
  unfoldable pub target : (idx mst ofs : ℕ) → Option Target
  target idx mst ofs =
      let low = slot 0x06000000 ofs in
      let high = slot 0x06400000 ofs in
      let fg_low = bit_or 0x06000000 (fg_offset ofs) in
      let fg_high = bit_or 0x06400000 (fg_offset ofs) in
      let bank_h =
        switch mst
          ((0, on_arm9 Region.vram_h 0x06898000) ∷ (1, on_arm9 Region.vram_h 0x06200000) ∷ [])
          none in
      switch idx
        ((0, three_modes Region.vram_a mst 0x06800000 low high)
          ∷ (1, three_modes Region.vram_b mst 0x06820000 low high)
          ∷ (2, bank_c mst ofs)
          ∷ (3, bank_d mst ofs)
          ∷ (4, three_modes Region.vram_e mst 0x06880000 0x06000000 0x06400000)
          ∷ (5, three_modes Region.vram_f mst 0x06890000 fg_low fg_high)
          ∷ (6, three_modes Region.vram_g mst 0x06894000 fg_low fg_high)
          ∷ (8, bank_h)
          ∷ (9, three_modes Region.vram_i mst 0x068A0000 0x06208000 0x06600000)
          ∷ [])
        none

  unfoldable pub map_vcnt : (cnt mst_mask ofs_mask idx : ℕ) → Banks → Banks
  map_vcnt cnt mst_mask ofs_mask idx s =
      if bit cnt 7
      then map_target idx (target idx (bit_and cnt mst_mask) (bit_and cnt ofs_mask)) s
      else disable idx s

  -- `vramcnt` holds the bytes of the control registers from 0x240 on.
  unfoldable pub remap : (vramcnt : ℕ → ℕ) → Banks → Banks
  remap vramcnt s =
      let s = map_vcnt (vramcnt 0) 0x3 0x18 0 s in
      let s = map_vcnt (vramcnt 1) 0x3 0x18 1 s in
      let s = map_vcnt (vramcnt 2) 0x7 0x18 2 s in
      let s = map_vcnt (vramcnt 3) 0x7 0x18 3 s in
      let s = map_vcnt (vramcnt 4) 0x7 0x00 4 s in
      let s = map_vcnt (vramcnt 5) 0x7 0x18 5 s in
      let s = map_vcnt (vramcnt 6) 0x7 0x18 6 s in
      let s = map_vcnt (vramcnt 8) 0x3 0x00 7 s in map_vcnt (vramcnt 9) 0x3 0x00 8 s

-- `vram::init`
abbrev pub init : Banks
init = record { mapping = λ t idx. 0; calls = [] }
