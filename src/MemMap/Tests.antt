-- ===== src/MemMap/Tests.antt =====
-- Tests of the memory map, and an instance of each theorem about it.
use ndse_core.Base.{◌+◌, ◌%◌, ◌≡◌, refl, ap, arith}
use ndse_core.Base.{Option, none, some, [], ◌∷◌}
use ndse_core.MemMap.Entry.{
  RegionBase, single, add_entry, remove_entry, merge, merge_from, set_difference, difference_from,
  recalc_prio, choose, remove_entry-add_entry, recalc_prio-IsTop, IsTop,
}
use ndse_core.MemMap.Apply.{
  unmap, MemoryMap, map_region, unmap, apply_mapping_internal, apply_mapping, apply_pages,
  map_block,
}
use ndse_core.MemMap.Consistent.{IsConsistent, IsHeld, map_region-IsConsistent}
use ndse_core.MemMap.Points.{
  Points, points, value_at, point_segments, points-IsLawful, points-IsLawfulUnmap,
}
use ndse_core.MemMap.Unmap.{unmap-IsHeld}

abbrev main_ram : RegionBase
main_ram = record { ident = 1; start = 100; pages = 4; priority = 1 }

abbrev tcm : RegionBase
tcm = record { ident = 2; start = 200; pages = 2; priority = 5 }

-- Main memory over eight pages, where four of its own are mirrored.
abbrev mirrored_map : MemoryMap Points
mirrored_map = record { map = λ p. 100 + p % 4; ovl = λ p. main_ram ∷ [] }

abbrev region_or : RegionBase → Option RegionBase → RegionBase
region_or d none = d
region_or d (some r) = r

mirrored_map-IsConsistent : IsConsistent points value_at mirrored_map
unfolding recalc_prio choose
mirrored_map-IsConsistent p r e = (p, ap (λ k. k.start + p % k.pages) (ap (region_or main_ram) e))

map_region-IsConsistent_example : IsHeld ((map_region points tcm 2 5 mirrored_map).map 3) tcm
unfolding map_region recalc_prio choose merge merge_from
map_region-IsConsistent_example =
    map_region-IsConsistent points value_at tcm 2 5 mirrored_map points-IsLawful
      mirrored_map-IsConsistent 3 tcm refl

remove_entry-add_entry_example :
    remove_entry (single tcm) (add_entry (single tcm) (single main_ram)) ≡ single main_ram
remove_entry-add_entry_example =
    remove_entry-add_entry tcm (single main_ram) ((λ e. omega arith), tt) refl

tcm_on_top : (map_region points tcm 2 5 mirrored_map).map 4 ≡ 200
unfolding map_region apply_mapping_internal apply_mapping apply_pages map_block merge merge_from
    recalc_prio choose point_segments
tcm_on_top = refl

-- A segment that begins inside the region is mapped from the region's first page on: page 5 held
-- block 101.
mapped_from_first : apply_mapping main_ram 5 8 mirrored_map.map 5 ≡ 100
unfolding apply_mapping apply_pages map_block
mapped_from_first = refl

-- The page goes back to main memory.
unmap-IsHeld_example :
    let m = map_region points tcm 2 5 mirrored_map in IsHeld ((unmap points tcm m).map 3) main_ram
unfolding map_region unmap recalc_prio choose merge merge_from set_difference difference_from
unmap-IsHeld_example =
    let m = map_region points tcm 2 5 mirrored_map in
    unmap-IsHeld points value_at tcm m 3 main_ram points-IsLawfulUnmap
      (λ p r.
        map_region-IsConsistent points value_at tcm 2 5 mirrored_map points-IsLawful
          mirrored_map-IsConsistent p r)
      (λ p. refl) (omega arith) refl

recalc_prio-IsTop_example :
    (top : RegionBase) × ((recalc_prio (main_ram ∷ tcm ∷ [])).0 ≡ some top)
    × IsTop top (main_ram ∷ tcm ∷ [])
recalc_prio-IsTop_example = recalc_prio-IsTop main_ram (tcm ∷ [])
