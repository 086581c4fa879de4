-- ===== src/MemMap/Apply.antt =====
-- The table of pages and what a request makes of it: `memory_map<T>` of Core/MemMap.h. The interval map
-- of the itl library is the parameter `overlay`, its documented behaviour the records `IsLawful`
-- and `IsLawfulUnmap`.
use ndse_core.Base.{ℕ, zero, suc, ◌+◌, ◌-◌, ◌%◌, ◌^◌, ◌==◌, Bool, false}
use ndse_core.Base.{Option, none, some, List, [], ◌∷◌, if◌then◌else◌}
use ndse_core.MemMap.Entry.{RegionBase, RegionEntry, single}

-- The block of each page.
abbrev pub PageMap : Type 0
PageMap = ℕ → ℕ

unfoldable pub map_block : (block page : ℕ) → PageMap → PageMap
map_block block page map = λ p. if p == page then block else map p

-- The loop of `apply_mapping`, `n` pages from `p` on.
unfoldable pub apply_pages : (n p i : ℕ) → RegionBase → PageMap → PageMap
apply_pages zero p i region map = map
apply_pages (suc n) p i region map =
    apply_pages n (suc p) (suc i) region (map_block (region.start + i % region.pages) p map)

-- An interval from `low` up to `high`, which is not part of it, and what is mapped there.
pub record Segment : Type 0 where
  pub low : ℕ
  pub high : ℕ
  pub entry : RegionEntry

-- The source asserts that the interval is not empty.
unfoldable pub apply_mapping : RegionBase → (low high : ℕ) → PageMap → PageMap
apply_mapping region low high map = apply_pages (high - low) low 0 region map

-- One segment; the source asserts that there is a region on top.
abbrev pub apply_prio : Option RegionBase → Segment → PageMap → PageMap
apply_prio none x map = map
apply_prio (some prio) x map = apply_mapping prio x.low x.high map

unfoldable pub apply_mapping_internal : List Segment → PageMap → PageMap
apply_mapping_internal [] map = map
apply_mapping_internal (x ∷ set) map = apply_mapping_internal set (apply_prio x.entry.prio x map)

-- What the source uses of `itl::split_interval_map`: `+=`, `-=`, the segments, the part in an
-- interval and the part in a set of intervals.
pub record Overlay (O : Type 0) : Type 0 where
  pub add : Segment → O → O
  pub subtract : Segment → O → O
  pub segments : O → List Segment
  pub intersect : (low high : ℕ) → O → List Segment
  pub intersect_set : List Segment → O → List Segment

pub record MemoryMap (O : Type 0) : Type 0 where
  pub map : PageMap
  pub ovl : O

abbrev pub total_pages : ℕ
total_pages = 2 ^ 23

-- `it->second.prio == region`
abbrev pub has_prio : RegionBase → RegionEntry → Bool
has_prio region e = elim e.prio [ none ↦ false | some r ↦ r.ident == region.ident ]

unfoldable pub collect : RegionBase → List Segment → List Segment
collect region [] = []
collect region (x ∷ set) =
    let rest = collect region set in if has_prio region x.entry then x ∷ rest else rest

module _ {O : Type 0} (overlay : Overlay O) where
  unfoldable pub init_null : (null_block : ℕ) (null_region : RegionBase) → O → MemoryMap O
  init_null null_block null_region empty = record {
    map = λ p. null_block;
    ovl = overlay.add (record { low = 0; high = total_pages; entry = single null_region }) empty;
  }

  unfoldable pub map_region : RegionBase → (low high : ℕ) → MemoryMap O → MemoryMap O
  map_region region low high m =
      let ovl = overlay.add (record { low = low; high = high; entry = single region }) m.ovl in
      record { map = apply_mapping_internal (overlay.intersect low high ovl) m.map; ovl = ovl }

  -- `map_region` of a whole region from a page on.
  unfoldable pub map_at : RegionBase → (page : ℕ) → MemoryMap O → MemoryMap O
  map_at region page m = map_region region page (page + region.pages) m

  unfoldable pub unmap : RegionBase → MemoryMap O → MemoryMap O
  unmap region m =
      let s = collect region (overlay.segments m.ovl) in
      let whole : Segment = record { low = 0; high = total_pages; entry = single region } in
      let ovl = overlay.subtract whole m.ovl in
      record { map = apply_mapping_internal (overlay.intersect_set s ovl) m.map; ovl = ovl }
