-- ===== src/MemMap/Unmap.antt =====
-- Taking a region out of the memory map (`unmap` of Core/MemMap.h).
use ndse_core.Base.{ℕ, ◌<◌, ◌==◌, ◌≡◌, ◌≢◌, ◌⊎◌, refl, sym, ap, ◌∙◌, arith}
use ndse_core.Base.{Bool, true, false, Bool-cases, inl, inr, if-holds}
use mathlib.Core.Path.{subst}
use ndse_core.Base.{Option, none, some, List, [], ◌∷◌, if◌then◌else◌}
use ndse_core.MemMap.Entry.{
  RegionBase, RegionEntry, single, recalc_prio, set_difference, remove_entry,
}
use ndse_core.MemMap.Choice.{recalc_prio-set_difference}
use ndse_core.MemMap.Apply.{Segment, Overlay, MemoryMap, collect, has_prio, total_pages, unmap}
use ndse_core.MemMap.Consistent.{
  covers, HasNone, HasOne, AllOrdered, IsHeld, IsConsistent, apply_mapping_internal-away,
  apply_mapping_internal-IsHeld,
}

-- What is documented of the rest of the interval map: a value is subtracted at every point of an
-- interval, the segments do not overlap, and a set of intervals that do not overlap is cut as one
-- interval is.
abbrev pub IsOnce : ℕ → List Segment → Type 0
IsOnce p [] = ⊥
IsOnce p (x ∷ set) = ((covers x p ≡ true) × HasNone p set) ⊎ ((covers x p ≡ false) × IsOnce p set)

pub record IsLawfulUnmap {O : Type 0} (overlay : Overlay O) (value_at : O → ℕ → RegionEntry)
    : Type 0 where
  pub subtract_value :
      (x : Segment) (o : O) (p : ℕ)
      → value_at (overlay.subtract x o) p
        ≡ (if covers x p then remove_entry x.entry (value_at o p) else value_at o p)
  pub segments_cover :
      (o : O) (p : ℕ) (r : RegionBase)
      → p < total_pages
      → (value_at o p).prio ≡ some r
      → HasOne p (value_at o p) (overlay.segments o)
  pub set_ordered : (set : List Segment) (o : O) → AllOrdered (overlay.intersect_set set o)
  pub set_inside :
      (set : List Segment) (o : O) (p : ℕ) (r : RegionBase)
      → IsOnce p set
      → (value_at o p).prio ≡ some r
      → HasOne p (value_at o p) (overlay.intersect_set set o)
  pub set_outside :
      (set : List Segment) (o : O) (p : ℕ) → HasNone p set → HasNone p (overlay.intersect_set set o)

collect-HasNone :
    (region : RegionBase) (p : ℕ) (set : List Segment)
    → HasNone p set
    → HasNone p (collect region set)
unfolding collect
collect-HasNone region p [] n = tt
collect-HasNone region p (x ∷ set) n =
    let rest = collect-HasNone region p set n.1 in
    if-holds (HasNone p) (has_prio region x.entry) (n.0, rest) rest

-- The intervals collected cover a page where the region is on top, and no other.
collect-IsOnce :
    (region : RegionBase) (p : ℕ) (e : RegionEntry) (set : List Segment)
    → HasOne p e set
    → has_prio region e ≡ true
    → IsOnce p (collect region set)
unfolding collect
collect-IsOnce region p e [] one h = absurd one
collect-IsOnce region p e (x ∷ set) one h = elim one [
  | inl here ↦
      let chosen : has_prio region x.entry ≡ true = ap (has_prio region) here.1 ∙ h in
      subst (λ b. IsOnce p (if b then x ∷ collect region set else collect region set)) (sym chosen)
        (inl (here.0, collect-HasNone region p set here.2))
  | inr behind ↦
      let rest = collect-IsOnce region p e set behind.1 h in
      if-holds (IsOnce p) (has_prio region x.entry) (inr (behind.0, rest)) rest
]

collect-away :
    (region : RegionBase) (p : ℕ) (e : RegionEntry) (set : List Segment)
    → HasOne p e set
    → has_prio region e ≡ false
    → HasNone p (collect region set)
unfolding collect
collect-away region p e [] one h = absurd one
collect-away region p e (x ∷ set) one h = elim one [
  | inl here ↦
      let left : has_prio region x.entry ≡ false = ap (has_prio region) here.1 ∙ h in
      subst (λ b. HasNone p (if b then x ∷ collect region set else collect region set)) (sym left)
        (collect-HasNone region p set here.2)
  | inr behind ↦
      let rest = collect-away region p e set behind.1 h in
      if-holds (HasNone p) (has_prio region x.entry) (behind.0, rest) rest
]

-- Nothing is on top where there is no section.
no_sections : (xs : List RegionBase) → (recalc_prio xs).0 ≡ none → xs ≡ []
unfolding recalc_prio
no_sections [] e = refl
no_sections (x ∷ xs) e = absurd (ground arith)

abbrev has_region : RegionBase → Option RegionBase → Bool
has_region region none = false
has_region region (some r) = r.ident == region.ident

module _ {O : Type 0} (overlay : Overlay O) (value_at : O → ℕ → RegionEntry) where
  -- What is on top is what `recalc_prio` chooses.
  abbrev pub IsCurrent : MemoryMap O → Type 0
  IsCurrent m = (p : ℕ) → (value_at m.ovl p).prio ≡ (recalc_prio (value_at m.ovl p).sections).0

  nothing_below :
      (region r : RegionBase) (e : RegionEntry)
      → e.prio ≡ (recalc_prio e.sections).0
      → (remove_entry (single region) e).prio ≡ some r
      → e.prio ≢ none
  unfolding remove_entry recalc_prio set_difference
  nothing_below region r e current top n =
      let empty = no_sections e.sections (sym current ∙ n) in
      let left = ap (λ xs. (recalc_prio (set_difference xs (region ∷ []))).0) empty in
      absurd (ground (arith, left, top))

  on_top_kept :
      (region t : RegionBase) (e : RegionEntry)
      → e.prio ≡ (recalc_prio e.sections).0
      → e.prio ≡ some t
      → t.ident ≢ region.ident
      → (remove_entry (single region) e).prio ≡ e.prio
  unfolding remove_entry
  on_top_kept region t e current up n =
      recalc_prio-set_difference region t e.sections (sym current ∙ up) n ∙ sym current

  -- Over an interval map that does what is documented, after a region is unmapped every page with a
  -- region on top holds a block of it, where each page did before and what was on top was chosen by
  -- `recalc_prio`.
  pub unmap-IsHeld :
      (region : RegionBase) (m : MemoryMap O) (p : ℕ) (r : RegionBase)
      → IsLawfulUnmap overlay value_at
      → IsConsistent overlay value_at m
      → IsCurrent m
      → p < total_pages
      → (value_at (unmap overlay region m).ovl p).prio ≡ some r
      → IsHeld ((unmap overlay region m).map p) r
  unfolding unmap
  unmap-IsHeld region m p r laws v current inside top =
      let e = value_at m.ovl p in
      let set = collect region (overlay.segments m.ovl) in
      let whole : Segment = record { low = 0; high = total_pages; entry = single region } in
      let ovl = overlay.subtract whole m.ovl in
      let ordered = laws.set_ordered set ovl in
      let within : covers whole p ≡ true = ground arith in
      let removed =
        laws.subtract_value whole m.ovl p
        ∙ ap (λ b. if b then remove_entry (single region) e else e) within in
      let below = ap (λ k. k.prio) (sym removed) ∙ top in
      elim (prio_cases e.prio) [
        | inl n ↦ absurd (nothing_below region r e (current p) below n)
        | inr (t, up) ↦
            let one = laws.segments_cover m.ovl p t inside up in
            elim (Bool-cases (t.ident == region.ident)) [
              | inl same ↦
                  let chosen = ap (has_region region) up ∙ same in
                  let once = collect-IsOnce region p e (overlay.segments m.ovl) one chosen in
                  apply_mapping_internal-IsHeld (overlay.intersect_set set ovl) m.map p
                    (value_at ovl p) r ordered (laws.set_inside set ovl p r once top) top
              | inr other ↦
                  let chosen = ap (has_region region) up ∙ other in
                  let away = collect-away region p e (overlay.segments m.ovl) one chosen in
                  let n : t.ident ≢ region.ident = ground arith in
                  let kept = on_top_kept region t e (current p) up n in
                  let held = v p r (sym kept ∙ below) in
                  (
                    held.0,
                    apply_mapping_internal-away (overlay.intersect_set set ovl) m.map p ordered
                          (laws.set_outside set ovl p away)
                        ∙ held.1,
                  )
            ]
      ]
    where
      prio_cases : (o : Option RegionBase) → (o ≡ none) ⊎ ((t : RegionBase) × (o ≡ some t))
      prio_cases none = inl refl
      prio_cases (some t) = inr (t, refl)
