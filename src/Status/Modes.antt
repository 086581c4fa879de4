-- ===== src/Status/Modes.antt =====
-- The banks of registers across a change of mode (Core/HLE.cpp).
use ndse_core.Base.{ℕ, zero, suc, ◌≤◌, ◌≡◌, ◌≢◌, ◌⊎◌, refl, sym, ◌∙◌, arith, inl, inr}
use ndse_core.Base.{if◌then◌else◌, false, List, length, get_or, set, ltb}
use ndse_core.Base.{length-set, get_or-set_self, get_or-set_ne}
use ndse_core.Status.{Mode, Processor, same_mode}
use ndse_core.Status.{mode_regs, shared_regs, copy_regs}

-- Every mode has sixteen registers.
abbrev pub IsWellFormed : Processor → Type 0
IsWellFormed p = (m : Mode) → length (p.context m).regs ≡ 16

length-copy_regs : (m : ℕ) (old new : List ℕ) → length (copy_regs m old new) ≡ length new
unfolding copy_regs
length-copy_regs zero old new = refl
length-copy_regs (suc m) old new =
    length-set (copy_regs m old new) m (get_or old m 0) ∙ length-copy_regs m old new

-- The loop copies the registers below `m` and keeps the others.
get_or-copy_regs :
    (m : ℕ) (old new : List ℕ) (i : ℕ)
    → m ≤ length new
    → get_or (copy_regs m old new) i 0 ≡ (if ltb i m then get_or old i 0 else get_or new i 0)
unfolding copy_regs
get_or-copy_regs zero old new i h = ground arith
get_or-copy_regs (suc m) old new i h =
    let rest = get_or-copy_regs m old new i (omega arith) in
    let size = length-copy_regs m old new in
    let cases : (i ≡ m) ⊎ (i ≢ m) = ground arith in
    elim cases [
      | inl e ↦
          rw e (
            ground
              (arith, get_or-set_self (copy_regs m old new) m (get_or old m 0) 0 (omega arith)))
      | inr n ↦
          get_or-set_ne (copy_regs m old new) m i (get_or old m 0) 0 (λ e. n (sym e))
          ∙ rest
          ∙ ground arith
    ]

-- The registers of the new mode after the copy; R15 always moves along.
abbrev pub moved : ℕ → (old new : List ℕ) → List ℕ
moved n old new = set (copy_regs n old new) 15 (get_or old 15 0)

pub length-moved : (n : ℕ) (old new : List ℕ) → length (moved n old new) ≡ length new
length-moved n old new =
    length-set (copy_regs n old new) 15 (get_or old 15 0) ∙ length-copy_regs n old new

pub get_or-moved_pc :
    (n : ℕ) (old new : List ℕ) → length new ≡ 16 → get_or (moved n old new) 15 0 ≡ get_or old 15 0
get_or-moved_pc n old new h =
    get_or-set_self (copy_regs n old new) 15 (get_or old 15 0) 0
      (omega (arith, length-copy_regs n old new))

pub get_or-moved :
    (n : ℕ) (old new : List ℕ) (i : ℕ)
    → length new ≡ 16
    → n ≤ 16
    → i ≢ 15
    → get_or (moved n old new) i 0 ≡ (if ltb i n then get_or old i 0 else get_or new i 0)
get_or-moved n old new i h k ne =
    get_or-set_ne (copy_regs n old new) 15 i (get_or old 15 0) 0 (λ e. ne (sym e))
    ∙ get_or-copy_regs n old new i (omega arith)

pub shared_regs-le : (a b : Mode) → shared_regs a b ≤ 16
unfolding mode_regs
shared_regs-le a b = ground arith

pub same_mode-false : (a b : Mode) → a ≢ b → same_mode a b ≡ false
same_mode-false a b n = ground arith
