-- ===== src/Vram/Placed.antt =====
-- Where the memory maps were last asked to have a bank (Core/vram.cpp).
use ndse_core.Base.{ℕ, ◌/◌, ◌^◌, ◌≡◌, ◌≢◌, arith, refl, ap, sym, ◌∙◌, ◌==◌, if◌then◌else◌}
use ndse_core.Base.{Bool-cases, if-holds, inl, inr, List, [], ◌∷◌, ◌++◌}
use ndse_core.Base.{Option, none, some}
use ndse_core.Ipc.{Cpu}
use ndse_core.MemMap.{Region, MapCall}
use ndse_core.Vram.{Banks, same_cpu, unmap_bank, map_bank}
use ndse_core.Vram.Mapping.{unmap_bank_other, map_bank_other}
use ndse_core.Vram.Mapping.{==_true, same_cpu_eq, map_bank_cpu, unmap_bank_cpu}

-- The number of a bank, from 0 for BANK-A on.
abbrev pub bank_number : Region → ℕ
bank_number Region.vram_a = 0
bank_number Region.vram_b = 1
bank_number Region.vram_c = 2
bank_number Region.vram_d = 3
bank_number Region.vram_e = 4
bank_number Region.vram_f = 5
bank_number Region.vram_g = 6
bank_number Region.vram_h = 7
bank_number Region.vram_i = 8
bank_number _ = 9

-- The page that bank `k` begins at after a request, where `before` is the one before it.
abbrev pub after : ℕ → MapCall → (before : Option ℕ) → Option ℕ
after k (MapCall.unmap r) before = if bank_number r == k then none else before
after k (MapCall.map_region r low high) before = if bank_number r == k then some low else before
after k (MapCall.map_at r page) before = if bank_number r == k then some page else before

abbrev heard : Cpu → ℕ → Cpu × MapCall → Option ℕ → Option ℕ
heard t k (u, call) before = if same_cpu u t then after k call before else before

-- The page that bank `k` begins at on a processor after requests, oldest first.
abbrev pub placed_from : Cpu → ℕ → List (Cpu × MapCall) → Option ℕ → Option ℕ
placed_from t k [] before = before
placed_from t k (x ∷ xs) before = placed_from t k xs (heard t k x before)

abbrev pub placed : Cpu → ℕ → Banks → Option ℕ
placed t k s = placed_from t k s.calls none

placed_from-snoc :
    (t : Cpu) (k : ℕ) (xs : List (Cpu × MapCall)) (x : Cpu × MapCall) (before : Option ℕ)
    → placed_from t k (xs ++ x ∷ []) before ≡ heard t k x (placed_from t k xs before)
placed_from-snoc t k [] x before = refl
placed_from-snoc t k (y ∷ ys) x before = placed_from-snoc t k ys x (heard t k y before)

-- What `mapping` records of a bank is where it was last put.
abbrev pub page_of : ℕ → Option ℕ
page_of addr = if addr == 0 then none else some (addr / 2 ^ 9)

abbrev pub IsRecorded : ℕ → Banks → Type 0
IsRecorded k s = (t : Cpu) → placed t k s ≡ page_of (s.mapping t k)

-- Nothing is asked or recorded of the bank `k`.
abbrev pub IsUntouched : ℕ → Banks → Banks → Type 0
IsUntouched k s s' = (t : Cpu) → (placed t k s' ≡ placed t k s) × (s'.mapping t k ≡ s.mapping t k)

other_bank :
    (k : ℕ) (r : Region) (x y : Option ℕ)
    → bank_number r ≢ k
    → (if bank_number r == k then x else y) ≡ y
other_bank k r x y ne = ground arith

same_bank :
    (k : ℕ) (r : Region) (x y : Option ℕ)
    → bank_number r ≡ k
    → (if bank_number r == k then x else y) ≡ x
same_bank k r x y e = ground arith

unmap_bank-placed_other :
    (u : Cpu) (idx k : ℕ) (b : Region) (s : Banks) (t : Cpu)
    → bank_number b ≢ k
    → placed t k (unmap_bank u idx b s) ≡ placed t k s
unfolding unmap_bank
unmap_bank-placed_other u idx k b s t ne =
    if-holds (λ (r : Banks). placed t k r ≡ placed t k s) (s.mapping u idx == 0) refl
      (placed_from-snoc t k s.calls (u, MapCall.unmap b) none
        ∙ if-holds (λ (o : Option ℕ). o ≡ placed t k s) (same_cpu u t)
            (other_bank k b none (placed t k s) ne) refl)

map_bank-placed_other :
    (u : Cpu) (idx k : ℕ) (b : Region) (addr : ℕ) (s : Banks) (t : Cpu)
    → bank_number b ≢ k
    → placed t k (map_bank u idx b addr s) ≡ placed t k s
unfolding map_bank
map_bank-placed_other u idx k b addr s t ne =
    let q = unmap_bank u idx b s in
    let call = MapCall.map_at b (addr / 2 ^ 9) in
    if-holds (λ (r : Banks). placed t k r ≡ placed t k s) (s.mapping u idx == addr) refl
      (placed_from-snoc t k q.calls (u, call) none
        ∙ if-holds (λ (o : Option ℕ). o ≡ placed t k q) (same_cpu u t)
            (other_bank k b (some (addr / 2 ^ 9)) (placed t k q) ne) refl
        ∙ unmap_bank-placed_other u idx k b s t ne)

pub unmap_bank-IsUntouched :
    (u : Cpu) (idx k : ℕ) (b : Region) (s : Banks)
    → k ≢ idx
    → bank_number b ≢ k
    → IsUntouched k s (unmap_bank u idx b s)
unmap_bank-IsUntouched u idx k b s ne nb t =
    (unmap_bank-placed_other u idx k b s t nb, unmap_bank_other u idx b s k ne t)

pub map_bank-IsUntouched :
    (u : Cpu) (idx k : ℕ) (b : Region) (addr : ℕ) (s : Banks)
    → k ≢ idx
    → bank_number b ≢ k
    → IsUntouched k s (map_bank u idx b addr s)
map_bank-IsUntouched u idx k b addr s ne nb t =
    (map_bank-placed_other u idx k b addr s t nb, map_bank_other u idx b addr s k ne t)

-- A bank taken from one processor is nowhere there and stays where it is on the other one.
pub unmap_bank-placed :
    (u : Cpu) (k : ℕ) (b : Region) (s : Banks) (t : Cpu)
    → bank_number b ≡ k
    → IsRecorded k s
    → placed t k (unmap_bank u k b s) ≡ (if same_cpu u t then none else placed t k s)
unfolding unmap_bank
unmap_bank-placed u k b s t e v = elim (Bool-cases (s.mapping u k == 0)) [
  | inl z ↦ elim (Bool-cases (same_cpu u t)) [
    | inl c ↦
        let nowhere : placed t k s ≡ none =
          v t
          ∙ ap (λ w. page_of (s.mapping w k)) (sym (same_cpu_eq u t c))
          ∙ ap page_of (==_true (s.mapping u k) 0 z) in
        rw (z, c) nowhere
    | inr c ↦ rw (z, c) refl
  ]
  | inr z ↦ rw z (
      placed_from-snoc t k s.calls (u, MapCall.unmap b) none
      ∙ ap (λ o. if same_cpu u t then o else placed t k s) (same_bank k b none (placed t k s) e))
]

-- A bank put somewhere on one processor is there, and stays where it is on the other one.
pub map_bank-placed :
    (u : Cpu) (k : ℕ) (b : Region) (addr : ℕ) (s : Banks) (t : Cpu)
    → bank_number b ≡ k
    → addr ≢ 0
    → IsRecorded k s
    → placed t k (map_bank u k b addr s)
      ≡ (if same_cpu u t then some (addr / 2 ^ 9) else placed t k s)
unfolding map_bank
map_bank-placed u k b addr s t e nz v =
    let q = unmap_bank u k b s in
    let here = some (addr / 2 ^ 9) in
    elim (Bool-cases (s.mapping u k == addr)) [
      | inl z ↦ elim (Bool-cases (same_cpu u t)) [
        | inl c ↦
            let there : page_of addr ≡ here = ground arith in
            let known : placed t k s ≡ here =
              v t
              ∙ ap (λ w. page_of (s.mapping w k)) (sym (same_cpu_eq u t c))
              ∙ ap page_of (==_true (s.mapping u k) addr z)
              ∙ there in
            rw (z, c) known
        | inr c ↦ rw (z, c) refl
      ]
      | inr z ↦ rw z (
          placed_from-snoc t k q.calls (u, MapCall.map_at b (addr / 2 ^ 9)) none
          ∙ ap (λ o. if same_cpu u t then o else placed t k q) (same_bank k b here (placed t k q) e)
          ∙ elim (Bool-cases (same_cpu u t)) [
            | inl c ↦ rw c refl
            | inr c ↦ rw c (unmap_bank-placed u k b s t e v ∙ rw c refl)
          ])
    ]

pub unmap_bank-IsRecorded :
    (u : Cpu) (k : ℕ) (b : Region) (s : Banks)
    → bank_number b ≡ k
    → IsRecorded k s
    → IsRecorded k (unmap_bank u k b s)
unmap_bank-IsRecorded u k b s e v t =
    unmap_bank-placed u k b s t e v ∙ elim (Bool-cases (same_cpu u t)) [
      | inl c ↦ rw (c, unmap_bank_cpu u t k b s, c) refl
      | inr c ↦ rw (c, unmap_bank_cpu u t k b s, c) (v t)
    ]

pub map_bank-IsRecorded :
    (u : Cpu) (k : ℕ) (b : Region) (addr : ℕ) (s : Banks)
    → bank_number b ≡ k
    → addr ≢ 0
    → IsRecorded k s
    → IsRecorded k (map_bank u k b addr s)
map_bank-IsRecorded u k b addr s e nz v t =
    let there : page_of addr ≡ some (addr / 2 ^ 9) = ground arith in
    map_bank-placed u k b addr s t e nz v ∙ elim (Bool-cases (same_cpu u t)) [
      | inl c ↦ rw (c, map_bank_cpu u t k b addr s, c) (sym there)
      | inr c ↦ rw (c, map_bank_cpu u t k b addr s, c) (v t)
    ]
