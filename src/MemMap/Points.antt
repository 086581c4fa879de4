-- ===== src/MemMap/Points.antt =====
-- A simple interval map that does what the memory map relies on (Core/MemMap.h): a function on pages,
-- whose segments are single pages.
use ndse_core.Base.{ℕ, zero, suc, ◌+◌, ◌-◌, ◌<◌, ◌≤◌, ◌≡◌, ◌⊎◌, refl, ap, arith}
use ndse_core.Base.{Bool, true, false, inl, inr, List, [], ◌∷◌, ◌++◌}
use ndse_core.Base.{if◌then◌else◌}
use ndse_core.MemMap.Consistent.{covers, HasOne, HasNone, AllOrdered, IsLawful}
use ndse_core.MemMap.Apply.{total_pages, Segment, Overlay}
use ndse_core.MemMap.Entry.{
  remove_entry, set_difference, add_entry, merge, entry_of, RegionBase, RegionEntry,
}
use ndse_core.MemMap.Unmap.{IsOnce, IsLawfulUnmap}

abbrev pub Points : Type 0
Points = ℕ → List RegionBase

unfoldable pub point_segments : (n p : ℕ) → Points → List Segment
point_segments zero p o = []
point_segments (suc n) p o =
    record { low = p; high = suc p; entry = entry_of (o p) } ∷ point_segments n (suc p) o

abbrev all_within : List Segment → Points → List Segment
all_within [] o = []
all_within (x ∷ set) o = point_segments (x.high - x.low) x.low o ++ all_within set o

abbrev pub points : Overlay Points
points = record {
  add = λ x o p. if covers x p then merge (o p) x.entry.sections else o p;
  subtract = λ x o p. if covers x p then set_difference (o p) x.entry.sections else o p;
  segments = λ o. point_segments total_pages 0 o;
  intersect = λ low high o. point_segments (high - low) low o;
  intersect_set = all_within;
}

abbrev pub value_at : Points → ℕ → RegionEntry
value_at o p = entry_of (o p)

points-add :
    (x : Segment) (o : Points) (p : ℕ)
    → value_at (points.add x o) p
      ≡ (if covers x p then add_entry x.entry (value_at o p) else value_at o p)
unfolding add_entry
points-add x o p = chosen (covers x p)
  where
    chosen :
        (b : Bool)
        → entry_of (if b then merge (o p) x.entry.sections else o p)
          ≡ (if b then entry_of (merge (o p) x.entry.sections) else entry_of (o p))
    chosen true = refl
    chosen false = refl

point_segments-AllOrdered : (n p : ℕ) (o : Points) → AllOrdered (point_segments n p o)
unfolding point_segments
point_segments-AllOrdered zero p o = tt
point_segments-AllOrdered (suc n) p o = (omega arith, point_segments-AllOrdered n (suc p) o)

point_segments-HasNone :
    (n l : ℕ) (o : Points) (p : ℕ) → (p < l) ⊎ (l + n ≤ p) → HasNone p (point_segments n l o)
unfolding point_segments
point_segments-HasNone zero l o p h = tt
point_segments-HasNone (suc n) l o p h =
    (ground arith, point_segments-HasNone n (suc l) o p (omega arith))

point_segments-HasOne :
    (n l : ℕ) (o : Points) (p : ℕ)
    → l ≤ p
    → p < l + n
    → HasOne p (value_at o p) (point_segments n l o)
unfolding point_segments
point_segments-HasOne zero l o p h k = absurd (omega arith)
point_segments-HasOne (suc n) l o p h k =
    let cases : (l ≡ p) ⊎ (l < p) = omega arith in
    elim cases [
      | inl e ↦
          inl (ground arith, ap (value_at o) e, point_segments-HasNone n (suc l) o p (omega arith))
      | inr m ↦ inr (ground arith, point_segments-HasOne n (suc l) o p m (omega arith))
    ]

pub points-IsLawful : IsLawful points value_at
points-IsLawful = record {
  add_value = points-add;
  intersect_ordered = λ low high o. point_segments-AllOrdered (high - low) low o;
  intersect_inside = λ low high o p r e h.
      let above : low ≤ p = ground arith in
      let below : p < high = ground arith in
      point_segments-HasOne (high - low) low o p above (omega arith);
  intersect_outside = λ low high o p e.
      let away : (p < low) ⊎ (low + (high - low) ≤ p) = ground arith in
      point_segments-HasNone (high - low) low o p away;
}

HasNone-append : (p : ℕ) (xs ys : List Segment) → HasNone p xs → HasNone p ys → HasNone p (xs ++ ys)
HasNone-append p [] ys h k = k
HasNone-append p (x ∷ xs) ys h k = (h.0, HasNone-append p xs ys h.1 k)

HasOne-append :
    (p : ℕ) (e : RegionEntry) (xs ys : List Segment)
    → HasOne p e xs
    → HasNone p ys
    → HasOne p e (xs ++ ys)
HasOne-append p e [] ys h k = absurd h
HasOne-append p e (x ∷ xs) ys h k = elim h [
  | inl here ↦ inl (here.0, here.1, HasNone-append p xs ys here.2 k)
  | inr behind ↦ inr (behind.0, HasOne-append p e xs ys behind.1 k)
]

HasOne-append_after :
    (p : ℕ) (e : RegionEntry) (xs ys : List Segment)
    → HasNone p xs
    → HasOne p e ys
    → HasOne p e (xs ++ ys)
HasOne-append_after p e [] ys h k = k
HasOne-append_after p e (x ∷ xs) ys h k = inr (h.0, HasOne-append_after p e xs ys h.1 k)

AllOrdered-append : (xs ys : List Segment) → AllOrdered xs → AllOrdered ys → AllOrdered (xs ++ ys)
AllOrdered-append [] ys h k = k
AllOrdered-append (x ∷ xs) ys h k = (h.0, AllOrdered-append xs ys h.1 k)

all_within-AllOrdered : (set : List Segment) (o : Points) → AllOrdered (all_within set o)
all_within-AllOrdered [] o = tt
all_within-AllOrdered (x ∷ set) o =
    AllOrdered-append (point_segments (x.high - x.low) x.low o) (all_within set o)
      (point_segments-AllOrdered (x.high - x.low) x.low o) (all_within-AllOrdered set o)

segment-HasOne :
    (x : Segment) (o : Points) (p : ℕ)
    → covers x p ≡ true
    → HasOne p (value_at o p) (point_segments (x.high - x.low) x.low o)
segment-HasOne x o p h =
    let above : x.low ≤ p = ground arith in
    let below : p < x.high = ground arith in
    point_segments-HasOne (x.high - x.low) x.low o p above (omega arith)

segment-HasNone :
    (x : Segment) (o : Points) (p : ℕ)
    → covers x p ≡ false
    → HasNone p (point_segments (x.high - x.low) x.low o)
segment-HasNone x o p h =
    let away : (p < x.low) ⊎ (x.low + (x.high - x.low) ≤ p) = ground arith in
    point_segments-HasNone (x.high - x.low) x.low o p away

all_within-HasNone :
    (set : List Segment) (o : Points) (p : ℕ) → HasNone p set → HasNone p (all_within set o)
all_within-HasNone [] o p h = tt
all_within-HasNone (x ∷ set) o p h =
    HasNone-append p (point_segments (x.high - x.low) x.low o) (all_within set o)
      (segment-HasNone x o p h.0) (all_within-HasNone set o p h.1)

all_within-HasOne :
    (set : List Segment) (o : Points) (p : ℕ)
    → IsOnce p set
    → HasOne p (value_at o p) (all_within set o)
all_within-HasOne [] o p h = absurd h
all_within-HasOne (x ∷ set) o p h = elim h [
  | inl here ↦
      HasOne-append p (value_at o p) (point_segments (x.high - x.low) x.low o) (all_within set o)
        (segment-HasOne x o p here.0) (all_within-HasNone set o p here.1)
  | inr behind ↦
      HasOne-append_after p (value_at o p) (point_segments (x.high - x.low) x.low o)
        (all_within set o) (segment-HasNone x o p behind.0) (all_within-HasOne set o p behind.1)
]

points-subtract :
    (x : Segment) (o : Points) (p : ℕ)
    → value_at (points.subtract x o) p
      ≡ (if covers x p then remove_entry x.entry (value_at o p) else value_at o p)
unfolding remove_entry
points-subtract x o p = chosen (covers x p)
  where
    chosen :
        (b : Bool)
        → entry_of (if b then set_difference (o p) x.entry.sections else o p)
          ≡ (if b then entry_of (set_difference (o p) x.entry.sections) else entry_of (o p))
    chosen true = refl
    chosen false = refl

pub points-IsLawfulUnmap : IsLawfulUnmap points value_at
points-IsLawfulUnmap = record {
  subtract_value = points-subtract;
  segments_cover = λ o p r h e. point_segments-HasOne total_pages 0 o p (omega arith) h;
  set_ordered = all_within-AllOrdered;
  set_inside = λ set o p r h e. all_within-HasOne set o p h;
  set_outside = all_within-HasNone;
}
