-- ===== src/Vram/Steps.antt =====
-- The calls of `map_vcnt` in a pass over the control registers (Core/vram.cpp).
use ndse_core.Base.{ℕ, ◌≡◌, ◌≢◌, ◌<◌, arith, refl, sym, ◌∙◌, ◌==◌}
use ndse_core.Base.{Bool-cases, if-holds, inl, inr, ◌&◌, switch, switch-holds}
use ndse_core.Base.{[], ◌∷◌, Option, none, some, bit, bit_and, bit_or}
use mathlib.Core.Path.{subst}
use ndse_core.Ipc.{Cpu}
use ndse_core.MemMap.{Region}
use ndse_core.Vram.{Banks, Target, on_arm9, slot, three_modes, target, bank_at, bank_c, bank_d}
use ndse_core.Vram.{unmap_bank, disable, map_target, map_vcnt, fg_offset}
use ndse_core.Vram.Placed.{bank_number, IsUntouched, unmap_bank-IsUntouched, map_bank-IsUntouched}

-- The arguments of a call of `map_vcnt`.
pub record Step : Type 0 where
  pub cnt : ℕ
  pub mst_mask : ℕ
  pub ofs_mask : ℕ
  pub idx : ℕ

abbrev pub step_of : (cnt mst_mask ofs_mask idx : ℕ) → Step
step_of cnt mst_mask ofs_mask idx = record {
  cnt = cnt;
  mst_mask = mst_mask;
  ofs_mask = ofs_mask;
  idx = idx;
}

-- No home of bank `k`.
abbrev pub IsElsewhere : ℕ → Option Target → Type 0
IsElsewhere k none = Unit
IsElsewhere k (some (u, b, addr)) = bank_number b ≢ k

three_modes-IsElsewhere :
    (k : ℕ) (b : Region) (m x y z : ℕ) → bank_number b ≢ k → IsElsewhere k (three_modes b m x y z)
three_modes-IsElsewhere k b m x y z ne =
    switch-holds (IsElsewhere k) m ((0, on_arm9 b x) ∷ (1, on_arm9 b y) ∷ (2, on_arm9 b z) ∷ [])
      none (ne & ne & ne & tt)

four-IsElsewhere :
    (k : ℕ) (b : Region) (m x y z : ℕ) (o : Option Target)
    → bank_number b ≢ k
    → IsElsewhere k o
    → IsElsewhere k (
        switch m
          ((0, on_arm9 b x) ∷ (1, on_arm9 b y) ∷ (2, some (Cpu.arm7, b, y)) ∷ (4, on_arm9 b z) ∷ [])
          o)
four-IsElsewhere k b m x y z o ne h =
    switch-holds (IsElsewhere k) m
      ((0, on_arm9 b x) ∷ (1, on_arm9 b y) ∷ (2, some (Cpu.arm7, b, y)) ∷ (4, on_arm9 b z) ∷ []) o
      (ne & ne & ne & ne & h)

-- A second switch on the same labels is not reached.
pub four_modes :
    (x : ℕ) (a b c d a' b' c' d' : Option Target)
    → switch x
        ((0, a) ∷ (1, b) ∷ (2, c) ∷ (4, d) ∷ [])
        (switch x ((0, a') ∷ (1, b') ∷ (2, c') ∷ (4, d') ∷ []) none)
      ≡ switch x ((0, a) ∷ (1, b) ∷ (2, c) ∷ (4, d) ∷ []) none
four_modes x a b c d a' b' c' d' = elim (Bool-cases (x == 0)) [
  | inl e ↦ rw e refl
  | inr e ↦ elim (Bool-cases (x == 1)) [
    | inl f ↦ rw (e, f) refl
    | inr f ↦ elim (Bool-cases (x == 2)) [
      | inl g ↦ rw (e, f, g) refl
      | inr g ↦ elim (Bool-cases (x == 4)) [
        | inl h ↦ rw (e, f, g, h) refl
        | inr h ↦ rw (e, f, g, h) refl
      ]
    ]
  ]
]

disable-IsUntouched :
    (idx k : ℕ) (s : Banks)
    → k ≢ idx
    → bank_number (bank_at idx) ≢ k
    → IsUntouched k s (disable idx s)
disable-IsUntouched idx k s ne nb t =
    let b = bank_at idx in
    let r = unmap_bank Cpu.arm7 idx b s in
    let second = unmap_bank-IsUntouched Cpu.arm9 idx k b r ne nb t in
    let first = unmap_bank-IsUntouched Cpu.arm7 idx k b s ne nb t in
    (second.0 ∙ first.0, second.1 ∙ first.1)

map_target-IsUntouched :
    (idx k : ℕ) (o : Option Target) (s : Banks)
    → k ≢ idx
    → IsElsewhere k o
    → IsUntouched k s (map_target idx o s)
map_target-IsUntouched idx k none s ne h t = (refl, refl)
map_target-IsUntouched idx k (some (u, b, addr)) s ne h t =
    map_bank-IsUntouched u idx k b addr s ne h t

module _ (beyond : ℕ → ℕ) where
  abbrev pub target_of : Step → Option Target
  target_of x = target beyond x.idx (bit_and x.cnt x.mst_mask) (bit_and x.cnt x.ofs_mask)

  abbrev pub step : Step → Banks → Banks
  step x s = map_vcnt beyond x.cnt x.mst_mask x.ofs_mask x.idx s

  -- The call is about another bank than `k`.
  abbrev pub IsOther : ℕ → Step → Type 0
  IsOther k x = (k ≢ x.idx) × IsElsewhere k (target_of x) × (bank_number (bank_at x.idx) ≢ k)

  pub step-IsUntouched : (k : ℕ) (x : Step) (s : Banks) → IsOther k x → IsUntouched k s (step x s)
  unfolding map_vcnt
  step-IsUntouched k x s o =
      if-holds (IsUntouched k s) (bit x.cnt 7) {x = map_target x.idx (target_of x) s}
        {y = disable x.idx s} (map_target-IsUntouched x.idx k (target_of x) s o.0 o.1)
        (disable-IsUntouched x.idx k s o.0 o.2)

  pub a-IsOther : (c k : ℕ) → 0 ≢ k → IsOther k (step_of c 3 0x18 0)
  unfolding target bank_at
  a-IsOther c k ne = (
    omega arith,
    three_modes-IsElsewhere k Region.vram_a (bit_and c 3) 0x06800000
        (slot 0x06000000 (bit_and c 0x18)) (slot 0x06400000 (bit_and c 0x18)) ne,
    ne,
  )

  pub b-IsOther : (c k : ℕ) → 1 ≢ k → IsOther k (step_of c 3 0x18 1)
  unfolding target bank_at
  b-IsOther c k ne = (
    omega arith,
    three_modes-IsElsewhere k Region.vram_b (bit_and c 3) 0x06820000
        (slot 0x06000000 (bit_and c 0x18)) (slot 0x06400000 (bit_and c 0x18)) ne,
    ne,
  )

  bank_d-IsElsewhere : (k m ofs : ℕ) → 3 ≢ k → IsElsewhere k (bank_d m ofs)
  unfolding bank_d
  bank_d-IsElsewhere k m ofs ne =
      four-IsElsewhere k Region.vram_d m 0x06860000 (slot 0x06000000 ofs) 0x06600000 none ne tt

  -- The case of BANK-C runs on into that of BANK-D, which has no other modes.
  pub c-IsOther : (c k : ℕ) → 2 ≢ k → IsOther k (step_of c 7 0x18 2)
  unfolding target bank_at bank_c bank_d
  c-IsOther c k ne =
      let m = bit_and c 7 in
      let low = slot 0x06000000 (bit_and c 0x18) in
      let skips =
        four_modes m (on_arm9 Region.vram_c 0x06840000) (on_arm9 Region.vram_c low)
          (some (Cpu.arm7, Region.vram_c, low)) (on_arm9 Region.vram_c 0x06200000)
          (on_arm9 Region.vram_d 0x06860000) (on_arm9 Region.vram_d low)
          (some (Cpu.arm7, Region.vram_d, low)) (on_arm9 Region.vram_d 0x06600000) in
      (
        omega arith,
        subst (IsElsewhere k) (sym skips)
            (four-IsElsewhere k Region.vram_c m 0x06840000 low 0x06200000 none ne tt),
        ne,
      )

  pub d-IsOther : (c k : ℕ) → 3 ≢ k → IsOther k (step_of c 7 0x18 3)
  unfolding target bank_at
  d-IsOther c k ne = (omega arith, bank_d-IsElsewhere k (bit_and c 7) (bit_and c 0x18) ne, ne)

  pub e-IsOther : (c k : ℕ) → 4 ≢ k → IsOther k (step_of c 7 0 4)
  unfolding target bank_at
  e-IsOther c k ne = (
    omega arith,
    three_modes-IsElsewhere k Region.vram_e (bit_and c 7) 0x06880000 0x06000000 0x06400000 ne,
    ne,
  )

  pub f-IsOther : (c k : ℕ) → 5 ≢ k → IsOther k (step_of c 7 0x18 5)
  unfolding target bank_at
  f-IsOther c k ne = (
    omega arith,
    three_modes-IsElsewhere k Region.vram_f (bit_and c 7) 0x06890000
        (bit_or 0x06000000 (fg_offset beyond (bit_and c 0x18)))
        (bit_or 0x06400000 (fg_offset beyond (bit_and c 0x18))) ne,
    ne,
  )

  pub g-IsOther : (c k : ℕ) → 6 ≢ k → IsOther k (step_of c 7 0x18 6)
  unfolding target bank_at
  g-IsOther c k ne = (
    omega arith,
    three_modes-IsElsewhere k Region.vram_g (bit_and c 7) 0x06894000
        (bit_or 0x06000000 (fg_offset beyond (bit_and c 0x18)))
        (bit_or 0x06400000 (fg_offset beyond (bit_and c 0x18))) ne,
    ne,
  )

  pub h-IsOther : (c k : ℕ) → 7 ≢ k → IsOther k (step_of c 3 0 7)
  unfolding target bank_at
  h-IsOther c k ne = (omega arith, tt, ne)

  pub i-IsOther : (c k : ℕ) → k < 5 → IsOther k (step_of c 3 0 8)
  unfolding target bank_at
  i-IsOther c k l =
      let ne : 7 ≢ k = omega arith in
      let last : 8 ≢ k = omega arith in
      (
        omega arith,
        switch-holds (IsElsewhere k) (bit_and c 3)
            ((0, on_arm9 Region.vram_h 0x06898000) ∷ (1, on_arm9 Region.vram_h 0x06200000) ∷ [])
            none (ne & ne & tt),
        last,
      )
