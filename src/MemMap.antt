-- ===== src/MemMap.antt =====
-- The requests that the emulator makes of a processor's memory map (Core/MemMap.h), as values. What the
-- map makes of them is in the child modules.
pub mod Entry
pub mod Apply
pub mod Consistent
pub mod Choice
pub mod Unmap
pub mod Points
mod Tests
use ndse_core.Base.{ℕ, ◌/◌, ◌^◌}

-- The regions of Core/PhysMem.h that move.
pub data Region : Type 0 where
  data_tcm inst_tcm vram_a vram_b vram_c vram_d vram_e vram_f vram_g vram_h vram_i : Region

-- `memory_map<T>::unmap`, `map_region` to the pages from `low` up to `high`, and `map_region` of a whole
-- region from a page on.
pub data MapCall : Type 0 where
  unmap : (r : Region) → MapCall
  map_region : (r : Region) (low high : ℕ) → MapCall
  map_at : (r : Region) (page : ℕ) → MapCall

-- `PAGING::REGION` and the call with it.
abbrev pub map_to : Region → (low high : ℕ) → MapCall
map_to r low high = MapCall.map_region r (low / 2 ^ 9) (high / 2 ^ 9)
