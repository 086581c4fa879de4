-- ===== src/Vram/Mapping.antt =====
-- The mapping of one bank of video memory (Core/vram.cpp).
use ndse_core.Base.{ℕ, ◌/◌, ◌^◌, ◌≡◌, ◌≢◌, arith, refl, ◌∙◌, ◌==◌, ◌&&◌, if◌then◌else◌}
use ndse_core.Base.{Bool, true, false, Bool-cases, if-holds, inl, inr}
use ndse_core.Ipc.{Cpu}
use ndse_core.MemMap.{Region, MapCall}
use ndse_core.Vram.{Banks, same_cpu, set_mapping, request, unmap_bank, map_bank}

==_refl : (a : ℕ) → (a == a) ≡ true
==_refl a = ground arith

==_ne : (a b : ℕ) → a ≢ b → (a == b) ≡ false
==_ne a b h = ground arith

pub ==_true : (a b : ℕ) → (a == b) ≡ true → a ≡ b
==_true a b h = ground arith

and_false : (b : Bool) → (b && false) ≡ false
and_false true = refl
and_false false = refl

same_cpu_refl : (t : Cpu) → same_cpu t t ≡ true
same_cpu_refl Cpu.arm7 = refl
same_cpu_refl Cpu.arm9 = refl

set_mapping_self :
    (t : Cpu) (idx addr : ℕ) (s : Banks) → (set_mapping t idx addr s).mapping t idx ≡ addr
set_mapping_self t idx addr s = rw (same_cpu_refl t, ==_refl idx) refl

set_mapping_other :
    (t : Cpu) (idx addr : ℕ) (s : Banks) (u : Cpu) (k : ℕ)
    → k ≢ idx
    → (set_mapping t idx addr s).mapping u k ≡ s.mapping u k
set_mapping_other t idx addr s u k ne = rw (==_ne k idx ne, and_false (same_cpu u t)) refl

-- The bank `k` is mapped as before.
abbrev pub SameAt : ℕ → Banks → Banks → Type 0
SameAt k s s' = (u : Cpu) → s'.mapping u k ≡ s.mapping u k

pub unmap_bank_other :
    (t : Cpu) (idx : ℕ) (b : Region) (s : Banks) (k : ℕ)
    → k ≢ idx
    → SameAt k s (unmap_bank t idx b s)
unfolding unmap_bank
unmap_bank_other t idx b s k ne u =
    if-holds (λ (r : Banks). r.mapping u k ≡ s.mapping u k) (s.mapping t idx == 0) refl
      (set_mapping_other t idx 0 (request t (MapCall.unmap b) s) u k ne)

pub map_bank_other :
    (t : Cpu) (idx : ℕ) (b : Region) (addr : ℕ) (s : Banks) (k : ℕ)
    → k ≢ idx
    → SameAt k s (map_bank t idx b addr s)
unfolding map_bank
map_bank_other t idx b addr s k ne u =
    if-holds (λ (r : Banks). r.mapping u k ≡ s.mapping u k) (s.mapping t idx == addr) refl
      (set_mapping_other t idx addr
          (request t (MapCall.map_at b (addr / 2 ^ 9)) (unmap_bank t idx b s)) u k ne
        ∙ unmap_bank_other t idx b s k ne u)

pub unmap_bank_self :
    (t : Cpu) (idx : ℕ) (b : Region) (s : Banks) → (unmap_bank t idx b s).mapping t idx ≡ 0
unfolding unmap_bank
unmap_bank_self t idx b s = elim (Bool-cases (s.mapping t idx == 0)) [
  | inl e ↦ rw e (==_true (s.mapping t idx) 0 e)
  | inr e ↦ rw e (set_mapping_self t idx 0 (request t (MapCall.unmap b) s))
]

pub map_bank_self :
    (t : Cpu) (idx : ℕ) (b : Region) (addr : ℕ) (s : Banks)
    → (map_bank t idx b addr s).mapping t idx ≡ addr
unfolding map_bank
map_bank_self t idx b addr s = elim (Bool-cases (s.mapping t idx == addr)) [
  | inl e ↦ rw e (==_true (s.mapping t idx) addr e)
  | inr e ↦ rw e (
      set_mapping_self t idx addr
        (request t (MapCall.map_at b (addr / 2 ^ 9)) (unmap_bank t idx b s)))
]

pub same_cpu_eq : (u t : Cpu) → same_cpu u t ≡ true → u ≡ t
same_cpu_eq Cpu.arm7 Cpu.arm7 e = refl
same_cpu_eq Cpu.arm7 Cpu.arm9 e = cc
same_cpu_eq Cpu.arm9 Cpu.arm7 e = cc
same_cpu_eq Cpu.arm9 Cpu.arm9 e = refl

-- What is recorded of the bank on either processor.
pub unmap_bank_cpu :
    (u t : Cpu) (idx : ℕ) (b : Region) (s : Banks)
    → (unmap_bank u idx b s).mapping t idx ≡ (if same_cpu u t then 0 else s.mapping t idx)
unfolding unmap_bank
unmap_bank_cpu Cpu.arm7 Cpu.arm7 idx b s = unmap_bank_self Cpu.arm7 idx b s
unmap_bank_cpu Cpu.arm9 Cpu.arm9 idx b s = unmap_bank_self Cpu.arm9 idx b s
unmap_bank_cpu Cpu.arm7 Cpu.arm9 idx b s =
    if-holds (λ (r : Banks). r.mapping Cpu.arm9 idx ≡ s.mapping Cpu.arm9 idx)
      (s.mapping Cpu.arm7 idx == 0) refl refl
unmap_bank_cpu Cpu.arm9 Cpu.arm7 idx b s =
    if-holds (λ (r : Banks). r.mapping Cpu.arm7 idx ≡ s.mapping Cpu.arm7 idx)
      (s.mapping Cpu.arm9 idx == 0) refl refl

pub map_bank_cpu :
    (u t : Cpu) (idx : ℕ) (b : Region) (addr : ℕ) (s : Banks)
    → (map_bank u idx b addr s).mapping t idx ≡ (if same_cpu u t then addr else s.mapping t idx)
unfolding map_bank
map_bank_cpu Cpu.arm7 Cpu.arm7 idx b addr s = map_bank_self Cpu.arm7 idx b addr s
map_bank_cpu Cpu.arm9 Cpu.arm9 idx b addr s = map_bank_self Cpu.arm9 idx b addr s
map_bank_cpu Cpu.arm7 Cpu.arm9 idx b addr s =
    if-holds (λ (r : Banks). r.mapping Cpu.arm9 idx ≡ s.mapping Cpu.arm9 idx)
      (s.mapping Cpu.arm7 idx == addr) refl (unmap_bank_cpu Cpu.arm7 Cpu.arm9 idx b s)
map_bank_cpu Cpu.arm9 Cpu.arm7 idx b addr s =
    if-holds (λ (r : Banks). r.mapping Cpu.arm7 idx ≡ s.mapping Cpu.arm7 idx)
      (s.mapping Cpu.arm9 idx == addr) refl (unmap_bank_cpu Cpu.arm9 Cpu.arm7 idx b s)
