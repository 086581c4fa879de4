-- ===== src/Vram/Homes.antt =====
-- The homes of the banks A to E by control register, against the switch of `map_vcnt`
-- (Core/vram.cpp).
use ndse_core.Base.{ℕ, ◌+◌, ◌*◌, ◌/◌, ◌%◌, ◌<◌, ◌≡◌, ◌≢◌, ◌⊎◌, arith, refl, ◌∙◌}
use ndse_core.Base.{inl, inr, ◌&◌, switch, switch-holds}
use ndse_core.Base.{[], ◌∷◌, Option, none, some, bit_and}
use ndse_core.Base.Table.{tabulate, same_values}
use ndse_core.Ipc.{Cpu}
use ndse_core.MemMap.{Region}
use ndse_core.Vram.{Target, on_arm9, slot, three_modes, bank_c, bank_d, target}
use ndse_core.Vram.Placed.{bank_number}
use ndse_core.Vram.Steps.{four_modes}

-- The home of a bank below 5 under a control register: by the mode in the low two or three bits, and
-- in pieces of 128 KB by the offset in bits 3 and 4.
abbrev pub home : (k control : ℕ) → Option Target
home k control =
    let ofs = 0x20000 * (control / 8 % 4) in
    switch k
      ((
        0,
        switch (control % 4)
            ((0, some (Cpu.arm9, Region.vram_a, 0x06800000))
              ∷ (1, some (Cpu.arm9, Region.vram_a, 0x06000000 + ofs))
              ∷ (2, some (Cpu.arm9, Region.vram_a, 0x06400000 + ofs))
              ∷ [])
            none,
      )
        ∷ (
          1,
          switch (control % 4)
              ((0, some (Cpu.arm9, Region.vram_b, 0x06820000))
                ∷ (1, some (Cpu.arm9, Region.vram_b, 0x06000000 + ofs))
                ∷ (2, some (Cpu.arm9, Region.vram_b, 0x06400000 + ofs))
                ∷ [])
              none,
        )
        ∷ (
          2,
          switch (control % 8)
              ((0, some (Cpu.arm9, Region.vram_c, 0x06840000))
                ∷ (1, some (Cpu.arm9, Region.vram_c, 0x06000000 + ofs))
                ∷ (2, some (Cpu.arm7, Region.vram_c, 0x06000000 + ofs))
                ∷ (4, some (Cpu.arm9, Region.vram_c, 0x06200000))
                ∷ [])
              none,
        )
        ∷ (
          3,
          switch (control % 8)
              ((0, some (Cpu.arm9, Region.vram_d, 0x06860000))
                ∷ (1, some (Cpu.arm9, Region.vram_d, 0x06000000 + ofs))
                ∷ (2, some (Cpu.arm7, Region.vram_d, 0x06000000 + ofs))
                ∷ (4, some (Cpu.arm9, Region.vram_d, 0x06600000))
                ∷ [])
              none,
        )
        ∷ (
          4,
          switch (control % 8)
              ((0, some (Cpu.arm9, Region.vram_e, 0x06880000))
                ∷ (1, some (Cpu.arm9, Region.vram_e, 0x06000000))
                ∷ (2, some (Cpu.arm9, Region.vram_e, 0x06400000))
                ∷ [])
              none,
        )
        ∷ [])
      none

-- A home of bank `k`.
abbrev pub IsHome : ℕ → Option Target → Type 0
IsHome k none = Unit
IsHome k (some (u, b, addr)) = (bank_number b ≡ k) × (addr ≢ 0)

three_modes-IsHome :
    (b : Region) (m x y z : ℕ)
    → x ≢ 0
    → y ≢ 0
    → z ≢ 0
    → IsHome (bank_number b) (three_modes b m x y z)
three_modes-IsHome b m x y z f g h =
    switch-holds (IsHome (bank_number b)) m
      ((0, on_arm9 b x) ∷ (1, on_arm9 b y) ∷ (2, on_arm9 b z) ∷ []) none
      ((refl, f) & (refl, g) & (refl, h) & tt)

-- The switch for BANK-C and BANK-D.
abbrev modes_on_both : Region → (mode first second third : ℕ) → Option Target → Option Target
modes_on_both b mode first second third other =
    switch mode
      ((0, on_arm9 b first)
        ∷ (1, on_arm9 b second)
        ∷ (2, some (Cpu.arm7, b, second))
        ∷ (4, on_arm9 b third)
        ∷ [])
      other

modes_on_both-IsHome :
    (b : Region) (m x y z : ℕ)
    → x ≢ 0
    → y ≢ 0
    → z ≢ 0
    → IsHome (bank_number b) (modes_on_both b m x y z none)
modes_on_both-IsHome b m x y z f g h =
    switch-holds (IsHome (bank_number b)) m
      ((0, on_arm9 b x) ∷ (1, on_arm9 b y) ∷ (2, some (Cpu.arm7, b, y)) ∷ (4, on_arm9 b z) ∷ [])
      none ((refl, f) & (refl, g) & (refl, g) & (refl, h) & tt)

pub home-IsHome : (k control : ℕ) → k < 5 → IsHome k (home k control)
home-IsHome k control h =
    let ofs = 0x20000 * (control / 8 % 4) in
    let low : 0x06000000 + ofs ≢ 0 = omega arith in
    let high : 0x06400000 + ofs ≢ 0 = omega arith in
    let a = 0x06000000 + ofs in
    let b = 0x06400000 + ofs in
    let ks : (k ≡ 0) ⊎ (k ≡ 1) ⊎ (k ≡ 2) ⊎ (k ≡ 3) ⊎ (k ≡ 4) = omega arith in
    elim ks [
      | inl e ↦
          rw e
            (three_modes-IsHome Region.vram_a (control % 4) 0x06800000 a b (omega arith) low high)
      | inr (inl e) ↦
          rw e
            (three_modes-IsHome Region.vram_b (control % 4) 0x06820000 a b (omega arith) low high)
      | inr (inr (inl e)) ↦ rw e (
          modes_on_both-IsHome Region.vram_c (control % 8) 0x06840000 a 0x06200000 (omega arith) low
            (omega arith))
      | inr (inr (inr (inl e))) ↦ rw e (
          modes_on_both-IsHome Region.vram_d (control % 8) 0x06860000 a 0x06600000 (omega arith) low
            (omega arith))
      | inr (inr (inr (inr e))) ↦ rw e (
          three_modes-IsHome Region.vram_e (control % 8) 0x06880000 0x06000000 0x06400000
            (omega arith) (omega arith) (omega arith))
    ]

low_mode : (c : ℕ) → c < 256 → bit_and c 3 ≡ c % 4
unfolding tabulate
low_mode = same_values (λ c. bit_and c 3) (λ c. c % 4) 256 refl

mode : (c : ℕ) → c < 256 → bit_and c 7 ≡ c % 8
unfolding tabulate
mode = same_values (λ c. bit_and c 7) (λ c. c % 8) 256 refl

low_slot : (c : ℕ) → c < 256 → slot 0x06000000 (bit_and c 0x18) ≡ 0x06000000 + 0x20000 * (c / 8 % 4)
unfolding tabulate
low_slot =
    same_values (λ c. slot 0x06000000 (bit_and c 0x18)) (λ c. 0x06000000 + 0x20000 * (c / 8 % 4))
      256 refl

high_slot :
    (c : ℕ) → c < 256 → slot 0x06400000 (bit_and c 0x18) ≡ 0x06400000 + 0x20000 * (c / 8 % 4)
unfolding tabulate
high_slot =
    same_values (λ c. slot 0x06400000 (bit_and c 0x18)) (λ c. 0x06400000 + 0x20000 * (c / 8 % 4))
      256 refl

module _ (beyond : ℕ → ℕ) where
  pub target-home_a : (c : ℕ) → c < 256 → target beyond 0 (bit_and c 3) (bit_and c 0x18) ≡ home 0 c
  unfolding target
  target-home_a c h =
      λ i. three_modes Region.vram_a (low_mode c h i) 0x06800000 (low_slot c h i) (high_slot c h i)

  pub target-home_b : (c : ℕ) → c < 256 → target beyond 1 (bit_and c 3) (bit_and c 0x18) ≡ home 1 c
  unfolding target
  target-home_b c h =
      λ i. three_modes Region.vram_b (low_mode c h i) 0x06820000 (low_slot c h i) (high_slot c h i)

  pub target-home_c : (c : ℕ) → c < 256 → target beyond 2 (bit_and c 7) (bit_and c 0x18) ≡ home 2 c
  unfolding target bank_c bank_d
  target-home_c c h =
      let low = slot 0x06000000 (bit_and c 0x18) in
      four_modes (bit_and c 7) (on_arm9 Region.vram_c 0x06840000) (on_arm9 Region.vram_c low)
        (some (Cpu.arm7, Region.vram_c, low)) (on_arm9 Region.vram_c 0x06200000)
        (on_arm9 Region.vram_d 0x06860000) (on_arm9 Region.vram_d low)
        (some (Cpu.arm7, Region.vram_d, low)) (on_arm9 Region.vram_d 0x06600000)
      ∙ λ i.
          switch (mode c h i)
            ((0, on_arm9 Region.vram_c 0x06840000)
              ∷ (1, on_arm9 Region.vram_c (low_slot c h i))
              ∷ (2, some (Cpu.arm7, Region.vram_c, low_slot c h i))
              ∷ (4, on_arm9 Region.vram_c 0x06200000)
              ∷ [])
            none

  pub target-home_d : (c : ℕ) → c < 256 → target beyond 3 (bit_and c 7) (bit_and c 0x18) ≡ home 3 c
  unfolding target bank_d
  target-home_d c h = λ i.
      switch (mode c h i)
        ((0, on_arm9 Region.vram_d 0x06860000)
          ∷ (1, on_arm9 Region.vram_d (low_slot c h i))
          ∷ (2, some (Cpu.arm7, Region.vram_d, low_slot c h i))
          ∷ (4, on_arm9 Region.vram_d 0x06600000)
          ∷ [])
        none

  pub target-home_e : (c : ℕ) → c < 256 → target beyond 4 (bit_and c 7) (bit_and c 0) ≡ home 4 c
  unfolding target
  target-home_e c h = λ i. three_modes Region.vram_e (mode c h i) 0x06880000 0x06000000 0x06400000
