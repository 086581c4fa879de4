-- ===== src/MemMap/Entry.antt =====
-- What is mapped over an interval: `region_entry` of Core/MemMap.h.
use ndse_core.Base.{ℕ, ◌+◌, ◌==◌, ◌≤◌, ◌≡◌, ◌≢◌, ◌⊎◌, refl, ap, ◌∙◌, arith, Bool, true, false}
use mathlib.Core.Path.{subst}
use ndse_core.Base.{inl, inr, sym, Bool-cases}
use ndse_core.Base.{Option, none, some, List, [], ◌∷◌, if◌then◌else◌, ltb}

-- `memory_region_base`: where the object and its first block are, how many pages it has, and its
-- priority. Lists of regions are sorted by the addresses of the objects.
pub record RegionBase : Type 0 where
  pub ident : ℕ
  pub start : ℕ
  pub pages : ℕ
  pub priority : ℕ

pub record RegionEntry : Type 0 where
  pub sections : List RegionBase
  pub prio : Option RegionBase

-- The loop of `recalc_prio` with the region chosen so far, and how often it stops in the debugger.
unfoldable pub choose : RegionBase → List RegionBase → RegionBase × ℕ
choose prio [] = (prio, 0)
choose prio (r ∷ rs) =
    let rest = choose (if ltb prio.priority r.priority then r else prio) rs in
    (rest.0, rest.1 + (if r.priority == prio.priority then 1 else 0))

unfoldable pub recalc_prio : List RegionBase → Option RegionBase × ℕ
recalc_prio [] = (none, 0)
recalc_prio (r ∷ rs) = (some (choose r rs).0, (choose r rs).1)

-- The entry of a list of sections. How often `recalc_prio` stops in the debugger is not counted here.
abbrev pub entry_of : List RegionBase → RegionEntry
entry_of sections = record { sections = sections; prio = (recalc_prio sections).0 }

-- `std::list::merge`: at equal keys the elements of the first list come first. `rest` merges what is
-- behind `x`.
unfoldable pub merge_from :
    RegionBase → (List RegionBase → List RegionBase) → List RegionBase → List RegionBase
merge_from x rest [] = x ∷ rest []
merge_from x rest (y ∷ ys) =
    let below = merge_from x rest ys in if ltb y.ident x.ident then y ∷ below else x ∷ rest (y ∷ ys)

unfoldable pub merge : List RegionBase → List RegionBase → List RegionBase
merge [] ys = ys
merge (x ∷ xs) ys = merge_from x (merge xs) ys

-- `std::set_difference`
unfoldable pub difference_from :
    RegionBase → (List RegionBase → List RegionBase) → List RegionBase → List RegionBase
difference_from x rest [] = x ∷ rest []
difference_from x rest (y ∷ ys) =
    let below = difference_from x rest ys in
    if ltb x.ident y.ident
    then x ∷ rest (y ∷ ys)
    else if ltb y.ident x.ident
    then below
    else rest ys

unfoldable pub set_difference : List RegionBase → List RegionBase → List RegionBase
set_difference [] ys = []
set_difference (x ∷ xs) ys = difference_from x (set_difference xs) ys

-- `operator +=` and `operator -=`
unfoldable pub add_entry : (other e : RegionEntry) → RegionEntry
add_entry other e = entry_of (merge e.sections other.sections)

unfoldable pub remove_entry : (other e : RegionEntry) → RegionEntry
remove_entry other e = entry_of (set_difference e.sections other.sections)

-- The entry that `map_region` and `unmap` make of a region.
abbrev pub single : RegionBase → RegionEntry
single r = entry_of (r ∷ [])

-- A region is one of a list.
abbrev pub IsOneOf : RegionBase → List RegionBase → Type 0
IsOneOf r [] = ⊥
IsOneOf r (x ∷ xs) = (r ≡ x) ⊎ IsOneOf r xs

abbrev pub IsAbsent : RegionBase → List RegionBase → Type 0
IsAbsent r [] = Unit
IsAbsent r (x ∷ xs) = (x.ident ≢ r.ident) × IsAbsent r xs

abbrev pub AllAtMost : ℕ → List RegionBase → Type 0
AllAtMost n [] = Unit
AllAtMost n (x ∷ xs) = (x.priority ≤ n) × AllAtMost n xs

-- Of a region and some others, one of highest priority.
abbrev pub IsTop : RegionBase → List RegionBase → Type 0
IsTop r xs = IsOneOf r xs × AllAtMost r.priority xs

choose-IsTop : (prio : RegionBase) (rs : List RegionBase) → IsTop (choose prio rs).0 (prio ∷ rs)
unfolding choose
choose-IsTop prio [] = (inl refl, (omega arith, tt))
choose-IsTop prio (r ∷ rs) = elim (Bool-cases (ltb prio.priority r.priority)) [
  | inl e ↦
      let low : prio.priority ≤ r.priority = ground arith in
      subst (λ t. IsTop t (prio ∷ r ∷ rs)) (chosen e) (newer low (choose-IsTop r rs))
  | inr e ↦
      let high : r.priority ≤ prio.priority = ground arith in
      subst (λ t. IsTop t (prio ∷ r ∷ rs)) (chosen e) (older high (choose-IsTop prio rs))
]
  where
    chosen :
        {b : Bool}
        → ltb prio.priority r.priority ≡ b
        → (choose (if b then r else prio) rs).0 ≡ (choose prio (r ∷ rs)).0
    chosen e = ap (λ t. (choose (if t then r else prio) rs).0) (sym e)

    newer :
        prio.priority ≤ r.priority
        → IsTop (choose r rs).0 (r ∷ rs)
        → IsTop (choose r rs).0 (prio ∷ r ∷ rs)
    newer low top = let bound = top.1.0 in (inr top.0, (omega arith, top.1))

    older :
        r.priority ≤ prio.priority
        → IsTop (choose prio rs).0 (prio ∷ rs)
        → IsTop (choose prio rs).0 (prio ∷ r ∷ rs)
    older high top =
        let bound = top.1.0 in
        (elim top.0 [ inl e ↦ inl e | inr m ↦ inr (inr m) ], (bound, (omega arith, top.1.1)))

-- Of several sections `recalc_prio` chooses one of highest priority.
pub recalc_prio-IsTop :
    (r : RegionBase) (rs : List RegionBase)
    → (top : RegionBase) × ((recalc_prio (r ∷ rs)).0 ≡ some top) × IsTop top (r ∷ rs)
unfolding recalc_prio
recalc_prio-IsTop r rs = ((choose r rs).0, refl, choose-IsTop r rs)

merge_nil : (xs : List RegionBase) → merge xs [] ≡ xs
unfolding merge merge_from
merge_nil [] = refl
merge_nil (x ∷ xs) = ap (λ rest. x ∷ rest) (merge_nil xs)

pub difference_nil : (xs : List RegionBase) → set_difference xs [] ≡ xs
unfolding set_difference difference_from
difference_nil [] = refl
difference_nil (x ∷ xs) = ap (λ rest. x ∷ rest) (difference_nil xs)

-- The first of two sections, and its only copy, is taken out.
first_removed : (r : RegionBase) (xs : List RegionBase) → set_difference (r ∷ xs) (r ∷ []) ≡ xs
unfolding set_difference difference_from
first_removed r xs =
    let same : ltb r.ident r.ident ≡ false = ground arith in
    ap
      (λ b.
        if b
        then r ∷ set_difference xs (r ∷ [])
        else if b
        then r ∷ set_difference xs []
        else set_difference xs [])
      same
    ∙ difference_nil xs

-- A section in front of the one to take out is kept.
lower_kept :
    (x r : RegionBase) (xs : List RegionBase)
    → ltb x.ident r.ident ≡ true
    → set_difference (x ∷ xs) (r ∷ []) ≡ x ∷ set_difference xs (r ∷ [])
unfolding set_difference difference_from
lower_kept x r xs e = rw e refl

-- Taking a section out again leaves the sections that were there.
pub set_difference-merge :
    (r : RegionBase) (xs : List RegionBase)
    → IsAbsent r xs
    → set_difference (merge xs (r ∷ [])) (r ∷ []) ≡ xs
unfolding merge merge_from
set_difference-merge r [] h = first_removed r []
set_difference-merge r (x ∷ xs) h = elim (Bool-cases (ltb r.ident x.ident)) [
  | inl e ↦
      ap (λ b. set_difference (if b then r ∷ x ∷ merge xs [] else x ∷ merge xs (r ∷ [])) (r ∷ [])) e
      ∙ first_removed r (x ∷ merge xs [])
      ∙ ap (λ rest. x ∷ rest) (merge_nil xs)
  | inr e ↦
      let lower : ltb x.ident r.ident ≡ true = let other = h.0 in ground arith in
      ap (λ b. set_difference (if b then r ∷ x ∷ merge xs [] else x ∷ merge xs (r ∷ [])) (r ∷ [])) e
      ∙ lower_kept x r (merge xs (r ∷ [])) lower
      ∙ ap (λ rest. x ∷ rest) (set_difference-merge r xs h.1)
]

-- Mapping a region over an interval on which it was not, and unmapping it, leaves what was mapped
-- there and, if that was chosen by `recalc_prio`, what is on top.
pub remove_entry-add_entry :
    (r : RegionBase) (e : RegionEntry)
    → IsAbsent r e.sections
    → e.prio ≡ (recalc_prio e.sections).0
    → remove_entry (single r) (add_entry (single r) e) ≡ e
unfolding add_entry remove_entry
remove_entry-add_entry r e h current =
    let same = set_difference-merge r e.sections h in
    ap entry_of same ∙ ap (λ p. record e { prio = p }) (sym current)
