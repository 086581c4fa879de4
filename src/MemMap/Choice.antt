-- ===== src/MemMap/Choice.antt =====
-- The choice of the region on top when another one is taken out (Core/MemMap.h).
use ndse_core.Base.{ℕ, ◌<◌, ◌≤◌, ◌≡◌, ◌≢◌, ◌⊎◌, refl, sym, ap, ◌∙◌, arith}
use ndse_core.Base.{true, false, Bool-cases, inl, inr}
use ndse_core.Base.{Option, none, some, List, [], ◌∷◌, if◌then◌else◌, ltb}
use ndse_core.MemMap.Entry.{
  RegionBase, choose, recalc_prio, set_difference, difference_from, difference_nil,
}

-- A region that is not chosen does not matter for the choice.
choose_without :
    (p y : RegionBase) (rest : List RegionBase)
    → p.priority ≤ y.priority
    → (choose y rest).0.ident ≢ y.ident
    → (choose p rest).0 ≡ (choose y rest).0
unfolding choose
choose_without p y [] h n = absurd (n refl)
choose_without p y (z ∷ zs) h n = elim (Bool-cases (ltb y.priority z.priority)) [
  | inl e ↦
      let above : ltb p.priority z.priority ≡ true = ground arith in
      ap (λ b. (choose (if b then z else p) zs).0) above
      ∙ sym (ap (λ b. (choose (if b then z else y) zs).0) e)
  | inr e ↦
      let kept = ap (λ b. (choose (if b then z else y) zs).0) e in
      let other : (choose y zs).0.ident ≢ y.ident = λ q. n (ap (λ r. r.ident) kept ∙ q) in
      choose_without (if ltb p.priority z.priority then z else p) y zs (ground arith) other
      ∙ sym kept
]

-- What `set_difference` makes of a section in front, by the order of the addresses.
difference_cons :
    (x r : RegionBase) (xs : List RegionBase)
    → (set_difference (x ∷ xs) (r ∷ []) ≡ x ∷ set_difference xs (r ∷ []))
      ⊎ (set_difference (x ∷ xs) (r ∷ []) ≡ x ∷ xs)
      ⊎ ((set_difference (x ∷ xs) (r ∷ []) ≡ xs) × (x.ident ≡ r.ident))
unfolding set_difference difference_from
difference_cons x r xs =
    let rest = set_difference xs in
    let cases : (x.ident < r.ident) ⊎ (r.ident < x.ident) ⊎ (x.ident ≡ r.ident) = omega arith in
    elim cases [
      | inl l ↦
          let first : ltb x.ident r.ident ≡ true = ground arith in
          inl (
            ap
              (λ b.
                if b
                then x ∷ rest (r ∷ [])
                else if ltb r.ident x.ident
                then x ∷ rest []
                else rest [])
              first)
      | inr (inl g) ↦
          let first : ltb x.ident r.ident ≡ false = ground arith in
          let second : ltb r.ident x.ident ≡ true = ground arith in
          inr (
            inl (
              ap
                (λ b.
                  if b
                  then x ∷ rest (r ∷ [])
                  else if ltb r.ident x.ident
                  then x ∷ rest []
                  else rest [])
                first
              ∙ ap (λ b. if b then x ∷ rest [] else rest []) second
              ∙ ap (λ k. x ∷ k) (difference_nil xs)))
      | inr (inr e) ↦
          let first : ltb x.ident r.ident ≡ false = ground arith in
          let second : ltb r.ident x.ident ≡ false = ground arith in
          inr (
            inr (
              ap
                    (λ b.
                      if b
                      then x ∷ rest (r ∷ [])
                      else if ltb r.ident x.ident
                      then x ∷ rest []
                      else rest [])
                    first
                  ∙ ap (λ b. if b then x ∷ rest [] else rest []) second
                  ∙ difference_nil xs,
              e,
            ))
    ]

-- Taking out a region that is not chosen leaves the choice.
choose-set_difference :
    (p r : RegionBase) (xs : List RegionBase)
    → (choose p xs).0.ident ≢ r.ident
    → (choose p (set_difference xs (r ∷ []))).0 ≡ (choose p xs).0
unfolding choose set_difference
choose-set_difference p r [] n = refl
choose-set_difference p r (x ∷ xs) n =
    let q = if ltb p.priority x.priority then x else p in
    elim (difference_cons x r xs) [
      | inl e ↦ ap (λ k. (choose p k).0) e ∙ choose-set_difference q r xs n
      | inr (inl e) ↦ ap (λ k. (choose p k).0) e
      | inr (inr e) ↦ ap (λ k. (choose p k).0) e.0 ∙ elim (Bool-cases (ltb p.priority x.priority)) [
        | inl l ↦
            let newer = ap (λ b. (choose (if b then x else p) xs).0) l in
            choose_without p x xs (ground arith) (λ c. n (ap (λ k. k.ident) newer ∙ c ∙ e.1))
            ∙ sym newer
        | inr g ↦ sym (ap (λ b. (choose (if b then x else p) xs).0) g)
      ]
    ]

abbrev ident_of : Option RegionBase → ℕ
ident_of none = 0
ident_of (some r) = r.ident

-- What is chosen when the first section, which is not chosen, is taken out.
first_out :
    (x : RegionBase) (zs : List RegionBase)
    → (choose x zs).0.ident ≢ x.ident
    → (recalc_prio zs).0 ≡ some (choose x zs).0
unfolding choose recalc_prio
first_out x [] n = absurd (n refl)
first_out x (z ∷ zs) n = elim (Bool-cases (ltb x.priority z.priority)) [
  | inl e ↦ ap some (sym (ap (λ b. (choose (if b then z else x) zs).0) e))
  | inr e ↦
      let kept = ap (λ b. (choose (if b then z else x) zs).0) e in
      ap some
        (choose_without z x zs (ground arith) (λ c. n (ap (λ k. k.ident) kept ∙ c)) ∙ sym kept)
]

-- Unmapping a region that is not on top leaves the region on top.
pub recalc_prio-set_difference :
    (r t : RegionBase) (xs : List RegionBase)
    → (recalc_prio xs).0 ≡ some t
    → t.ident ≢ r.ident
    → (recalc_prio (set_difference xs (r ∷ []))).0 ≡ (recalc_prio xs).0
unfolding recalc_prio set_difference
recalc_prio-set_difference r t [] e n = refl
recalc_prio-set_difference r t (x ∷ xs) e n =
    let other : (choose x xs).0.ident ≢ r.ident = λ c. n (sym (ap ident_of e) ∙ c) in
    elim (difference_cons x r xs) [
      | inl d ↦ ap (λ k. (recalc_prio k).0) d ∙ ap some (choose-set_difference x r xs other)
      | inr (inl d) ↦ ap (λ k. (recalc_prio k).0) d
      | inr (inr d) ↦ ap (λ k. (recalc_prio k).0) d.0 ∙ first_out x xs (λ c. other (c ∙ d.1))
    ]
