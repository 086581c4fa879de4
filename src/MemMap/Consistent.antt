-- ===== src/MemMap/Consistent.antt =====
-- Which block a page holds once a region is mapped (Core/MemMap.h).
use ndse_core.Base.{ℕ, zero, suc, ◌+◌, ◌-◌, ◌%◌, ◌<◌, ◌≤◌, ◌≡◌, ◌⊎◌, refl, sym, ap, ap₂}
use ndse_core.Base.{◌∙◌, arith, Bool, true, false, ◌&&◌, Bool-cases, inl, inr}
use ndse_core.Base.{Option, none, some, List, [], ◌∷◌, if◌then◌else◌, ltb, leb}
use ndse_core.MemMap.Entry.{RegionBase, RegionEntry, single, add_entry}
use ndse_core.MemMap.Apply.{
  PageMap, map_block, apply_pages, Segment, apply_mapping, apply_prio, apply_mapping_internal,
  Overlay, MemoryMap, map_region,
}

apply_pages-page :
    (n p i : ℕ) (r : RegionBase) (map : PageMap) (x : ℕ)
    → apply_pages n p i r map x
      ≡ (if leb p x && ltb x (p + n) then r.start + (i + (x - p)) % r.pages else map x)
unfolding apply_pages map_block
apply_pages-page zero p i r map x = ground arith
apply_pages-page (suc n) p i r map x =
    let rest = apply_pages-page n (suc p) (suc i) r (map_block (r.start + i % r.pages) p map) x in
    let cases : (x ≡ p) ⊎ (x < p) ⊎ (p < x) = omega arith in
    elim cases [
      | inl e ↦
          let here : r.start + i % r.pages ≡ r.start + (i + (x - p)) % r.pages =
            ap (λ o. r.start + o % r.pages) (omega arith) in
          rest ∙ ground arith
      | inr (inl l) ↦ rest ∙ ground arith
      | inr (inr l) ↦
          let there : r.start + (suc i + (x - suc p)) % r.pages
              ≡ r.start + (i + (x - p)) % r.pages =
            ap (λ o. r.start + o % r.pages) (omega arith) in
          rest ∙ ground arith
    ]

-- A page of the interval holds the region's block of the same offset, counted round its pages, and
-- any other page what it held.
pub apply_mapping-page :
    (r : RegionBase) (low high : ℕ) (map : PageMap) (p : ℕ)
    → low ≤ high
    → apply_mapping r low high map p
      ≡ (if leb low p && ltb p high then r.start + (p - low) % r.pages else map p)
unfolding apply_mapping
apply_mapping-page r low high map p h =
    let all = apply_pages-page (high - low) low 0 r map p in
    let size : low + (high - low) ≡ high = omega arith in
    let offset : 0 + (p - low) ≡ p - low = omega arith in
    all ∙ ap₂ (λ h o. if leb low p && ltb p h then r.start + o % r.pages else map p) size offset

abbrev pub covers : Segment → ℕ → Bool
covers x p = leb x.low p && ltb p x.high

-- No segment covers a page, and exactly one does, with an entry.
abbrev pub HasNone : ℕ → List Segment → Type 0
HasNone p [] = Unit
HasNone p (x ∷ set) = (covers x p ≡ false) × HasNone p set

abbrev pub HasOne : ℕ → RegionEntry → List Segment → Type 0
HasOne p e [] = ⊥
HasOne p e (x ∷ set) =
    ((covers x p ≡ true) × (x.entry ≡ e) × HasNone p set) ⊎ ((covers x p ≡ false) × HasOne p e set)

abbrev pub AllOrdered : List Segment → Type 0
AllOrdered [] = Unit
AllOrdered (x ∷ set) = (x.low ≤ x.high) × AllOrdered set

-- The block is one of the region's.
abbrev pub IsHeld : (block : ℕ) → RegionBase → Type 0
IsHeld block r = (k : ℕ) × (block ≡ r.start + k % r.pages)

apply_prio-away :
    (o : Option RegionBase) (x : Segment) (map : PageMap) (p : ℕ)
    → x.low ≤ x.high
    → covers x p ≡ false
    → apply_prio o x map p ≡ map p
apply_prio-away none x map p h e = refl
apply_prio-away (some r) x map p h e =
    apply_mapping-page r x.low x.high map p h
    ∙ ap (λ b. if b then r.start + (p - x.low) % r.pages else map p) e

pub apply_mapping_internal-away :
    (set : List Segment) (map : PageMap) (p : ℕ)
    → AllOrdered set
    → HasNone p set
    → apply_mapping_internal set map p ≡ map p
unfolding apply_mapping_internal
apply_mapping_internal-away [] map p o n = refl
apply_mapping_internal-away (x ∷ set) map p o n =
    apply_mapping_internal-away set (apply_prio x.entry.prio x map) p o.1 n.1
    ∙ apply_prio-away x.entry.prio x map p o.0 n.0

apply_prio-IsHeld :
    (r : RegionBase) (x : Segment) (map : PageMap) (p : ℕ)
    → x.low ≤ x.high
    → covers x p ≡ true
    → x.entry.prio ≡ some r
    → IsHeld (apply_prio x.entry.prio x map p) r
apply_prio-IsHeld r x map p h e top = (
  p - x.low,
  ap (λ o. apply_prio o x map p) top
      ∙ apply_mapping-page r x.low x.high map p h
      ∙ ap (λ b. if b then r.start + (p - x.low) % r.pages else map p) e,
)

-- Where one segment covers a page, the page comes to hold a block of the region on top there.
pub apply_mapping_internal-IsHeld :
    (set : List Segment) (map : PageMap) (p : ℕ) (e : RegionEntry) (r : RegionBase)
    → AllOrdered set
    → HasOne p e set
    → e.prio ≡ some r
    → IsHeld (apply_mapping_internal set map p) r
unfolding apply_mapping_internal
apply_mapping_internal-IsHeld [] map p e r o one top = absurd one
apply_mapping_internal-IsHeld (x ∷ set) map p e r o one top = elim one [
  | inl here ↦
      let there = apply_prio x.entry.prio x map in
      let held = apply_prio-IsHeld r x map p o.0 here.0 (ap (λ k. k.prio) here.1 ∙ top) in
      (held.0, apply_mapping_internal-away set there p o.1 here.2 ∙ held.1)
  | inr behind ↦
      apply_mapping_internal-IsHeld set (apply_prio x.entry.prio x map) p e r o.1 behind.1 top
]

-- What is documented of the interval map: `value_at` is the aggregate at a point, an interval is cut
-- into segments that do not overlap, each with the aggregate at its points, and none outside.
pub record IsLawful {O : Type 0} (overlay : Overlay O) (value_at : O → ℕ → RegionEntry)
    : Type 0 where
  pub add_value :
      (x : Segment) (o : O) (p : ℕ)
      → value_at (overlay.add x o) p
        ≡ (if covers x p then add_entry x.entry (value_at o p) else value_at o p)
  pub intersect_ordered : (low high : ℕ) (o : O) → AllOrdered (overlay.intersect low high o)
  pub intersect_inside :
      (low high : ℕ) (o : O) (p : ℕ) (r : RegionBase)
      → (leb low p && ltb p high) ≡ true
      → (value_at o p).prio ≡ some r
      → HasOne p (value_at o p) (overlay.intersect low high o)
  pub intersect_outside :
      (low high : ℕ) (o : O) (p : ℕ)
      → (leb low p && ltb p high) ≡ false
      → HasNone p (overlay.intersect low high o)

module _ {O : Type 0} (overlay : Overlay O) (value_at : O → ℕ → RegionEntry) where
  -- Every page holds a block of the region on top there.
  abbrev pub IsConsistent : MemoryMap O → Type 0
  IsConsistent m = (p : ℕ) (r : RegionBase) → (value_at m.ovl p).prio ≡ some r → IsHeld (m.map p) r

  -- Over an interval map that does what is documented, mapping a region over an interval keeps every
  -- page on a block of the region that is on top there.
  pub map_region-IsConsistent :
      (region : RegionBase) (low high : ℕ) (m : MemoryMap O)
      → IsLawful overlay value_at
      → IsConsistent m
      → IsConsistent (map_region overlay region low high m)
  unfolding map_region
  map_region-IsConsistent region low high m laws v p r top =
      let x : Segment = record { low = low; high = high; entry = single region } in
      let ovl = overlay.add x m.ovl in
      let ordered = laws.intersect_ordered low high ovl in
      elim (Bool-cases (covers x p)) [
        | inl inside ↦
            apply_mapping_internal-IsHeld (overlay.intersect low high ovl) m.map p (value_at ovl p)
              r ordered (laws.intersect_inside low high ovl p r inside top) top
        | inr outside ↦
            let same =
              laws.add_value x m.ovl p
              ∙ ap (λ b. if b then add_entry x.entry (value_at m.ovl p) else value_at m.ovl p)
                  outside in
            let held = v p r (ap (λ e. e.prio) (sym same) ∙ top) in
            (
              held.0,
              apply_mapping_internal-away (overlay.intersect low high ovl) m.map p ordered
                    (laws.intersect_outside low high ovl p outside)
                  ∙ held.1,
            )
      ]
