-- ===== src/Status/Bank.antt =====
-- A change of mode as the program sees it: which registers move along, and what a return restores
-- (`loadcpsr` of Core/HLE.cpp).
use ndse_core.Base.{
  if-else, ℕ, ◌%◌, ◌+◌, ◌^◌, ◌≡◌, ◌≢◌, ◌⊎◌, refl, ap, ap₂, sym, ◌∙◌, arith, some, none, inl, inr,
}
use ndse_core.Base.{
  Option, Bool-cases, if-holds, ltb, ◌||◌, ◌==◌, if◌then◌else◌, true, length, get_or,
}
use ndse_core.Status.{Mode, EmulationContext, Processor, ctx, mode_of, same_mode}
use ndse_core.Status.{shared_regs, switch_mode, write_cpsr, change_mode, loadcpsr, storecpsr}
use ndse_core.Status.{x86_to_flags}
use ndse_core.Status.Flags.{written, same_mode_refl, ctx-write_cpsr-cpsr, write_cpsr-mode}
use ndse_core.Status.Modes.{IsWellFormed, moved, length-moved, shared_regs-le}
use ndse_core.Status.Modes.{same_mode-false, get_or-moved, get_or-moved_pc}

-- The context of the new mode.
abbrev arrived : Mode → Processor → EmulationContext
arrived m p = record (p.context m) {
  regs = moved (shared_regs p.mode m) (ctx p).regs (p.context m).regs;
  cpsr = (ctx p).cpsr;
}

pub ctx-switch_mode : (m : Mode) (p : Processor) → ctx (switch_mode m p) ≡ arrived m p
unfolding switch_mode
ctx-switch_mode m p = rw (same_mode_refl m) refl

pub context-switch_mode :
    (k m : Mode) (p : Processor) → k ≢ m → (switch_mode m p).context k ≡ p.context k
unfolding switch_mode
context-switch_mode k m p n = rw (same_mode-false k m n) refl

pub switch_mode-mode : (m : Mode) (p : Processor) → (switch_mode m p).mode ≡ m
unfolding switch_mode
switch_mode-mode m p = refl

-- The registers after a change of mode: those below `shared_regs`, and R15, come from the mode left,
-- the others from the bank of the mode entered.
pub switch_mode-regs :
    (m : Mode) (p : Processor) (i : ℕ)
    → IsWellFormed p
    → get_or (ctx (switch_mode m p)).regs i 0 ≡ (
        if (i == 15) || ltb i (shared_regs p.mode m)
        then get_or (ctx p).regs i 0
        else get_or (p.context m).regs i 0)
switch_mode-regs m p i v =
    let n = shared_regs p.mode m in
    let bound = shared_regs-le p.mode m in
    let cases : (i ≡ 15) ⊎ (i ≢ 15) = ground arith in
    ap (λ c. get_or c.regs i 0) (ctx-switch_mode m p) ∙ elim cases [
      | inl e ↦ rw e (get_or-moved_pc n (ctx p).regs (p.context m).regs (v m))
      | inr ne ↦ ground (arith, get_or-moved n (ctx p).regs (p.context m).regs i (v m) bound ne)
    ]

pub switch_mode-IsWellFormed :
    (m : Mode) (p : Processor) → IsWellFormed p → IsWellFormed (switch_mode m p)
unfolding switch_mode
switch_mode-IsWellFormed m p v k =
    if-holds (λ (c : EmulationContext). length c.regs ≡ 16) (same_mode k m)
      (length-moved (shared_regs p.mode m) (ctx p).regs (p.context m).regs ∙ v m) (v k)

write_cpsr-IsWellFormed :
    (value mask : ℕ) (p : Processor) → IsWellFormed p → IsWellFormed (write_cpsr value mask p)
unfolding write_cpsr
write_cpsr-IsWellFormed value mask p v k =
    if-holds (λ (c : EmulationContext). length c.regs ≡ 16) (same_mode k p.mode) (v p.mode) (v k)

change_mode-IsWellFormed :
    (m : Option Mode) (p : Processor) → IsWellFormed p → IsWellFormed (change_mode m p)
unfolding change_mode
change_mode-IsWellFormed none p v = v
change_mode-IsWellFormed (some m) p v =
    if-holds IsWellFormed (same_mode p.mode m) v (switch_mode-IsWellFormed m p v)

-- `loadcpsr` keeps sixteen registers in every mode.
pub loadcpsr-IsWellFormed :
    (value mask : ℕ) (p : Processor) → IsWellFormed p → IsWellFormed (loadcpsr value mask p)
unfolding loadcpsr
loadcpsr-IsWellFormed value mask p v =
    let w = write_cpsr-IsWellFormed value mask p v in
    let q = write_cpsr value mask p in
    if-holds IsWellFormed (mask % 32 == 0) w
      (change_mode-IsWellFormed (mode_of ((ctx q).cpsr % 32)) q w)

same_mode-eq : (a b : Mode) → same_mode a b ≡ true → a ≡ b
same_mode-eq a b e = ground arith

pub loadcpsr-change_mode :
    (value mask : ℕ) (p : Processor) (m : Option Mode)
    → mask % 32 ≢ 0
    → mode_of (written value mask p % 32) ≡ m
    → loadcpsr value mask p ≡ change_mode m (write_cpsr value mask p)
unfolding loadcpsr
loadcpsr-change_mode value mask p m h e =
    let w = write_cpsr value mask p in
    if-else (mask % 32) w (change_mode (mode_of ((ctx w).cpsr % 32)) w) h
    ∙ ap (λ o. change_mode o w) (ap (λ x. mode_of (x % 32)) (ctx-write_cpsr-cpsr value mask p) ∙ e)

change_mode-mode : (m : Mode) (p : Processor) → (change_mode (some m) p).mode ≡ m
unfolding change_mode
change_mode-mode m p = elim (Bool-cases (same_mode p.mode m)) [
  | inl e ↦ rw e (same_mode-eq p.mode m e)
  | inr e ↦ rw e (switch_mode-mode m p)
]

change_mode-cpsr : (m : Mode) (p : Processor) → (ctx (change_mode (some m) p)).cpsr ≡ (ctx p).cpsr
unfolding change_mode
change_mode-cpsr m p =
    if-holds (λ q. (ctx q).cpsr ≡ (ctx p).cpsr) (same_mode p.mode m) refl
      (ap (λ c. c.cpsr) (ctx-switch_mode m p))

-- A load that covers the mode bits with those of a mode enters that mode, with the register written.
pub loadcpsr-mode :
    (value mask : ℕ) (p : Processor) (m : Mode)
    → mask % 32 ≢ 0
    → mode_of (written value mask p % 32) ≡ some m
    → ((loadcpsr value mask p).mode ≡ m)
      × ((ctx (loadcpsr value mask p)).cpsr ≡ written value mask p)
loadcpsr-mode value mask p m h e =
    let w = write_cpsr value mask p in
    let changed = loadcpsr-change_mode value mask p (some m) h e in
    (
      ap (λ q. q.mode) changed ∙ change_mode-mode m w,
      ap (λ q. (ctx q).cpsr) changed ∙ change_mode-cpsr m w ∙ ctx-write_cpsr-cpsr value mask p,
    )

pub write_cpsr-breaks :
    (value mask : ℕ) (p : Processor) → (write_cpsr value mask p).breaks ≡ p.breaks
unfolding write_cpsr
write_cpsr-breaks value mask p = refl

-- A load of mode bits that name no mode stops in the debugger and stays in the mode, with the
-- register written.
pub loadcpsr-invalid :
    (value mask : ℕ) (p : Processor)
    → mask % 32 ≢ 0
    → mode_of (written value mask p % 32) ≡ none
    → let q = loadcpsr value mask p in
      (q.mode ≡ p.mode) × (q.breaks ≡ p.breaks + 1) × ((ctx q).cpsr ≡ written value mask p)
unfolding change_mode
loadcpsr-invalid value mask p h e =
    let w = write_cpsr value mask p in
    let stopped = loadcpsr-change_mode value mask p none h e in
    (
      ap (λ q. q.mode) stopped ∙ write_cpsr-mode value mask p,
      ap (λ q. q.breaks) stopped ∙ ap (λ n. n + 1) (write_cpsr-breaks value mask p),
      ap (λ q. (ctx q).cpsr) stopped ∙ ctx-write_cpsr-cpsr value mask p,
    )

write_cpsr-context :
    (value mask : ℕ) (p : Processor) (m : Mode)
    → m ≢ p.mode
    → (write_cpsr value mask p).context m ≡ p.context m
unfolding write_cpsr
write_cpsr-context value mask p m n = rw (same_mode-false m p.mode n) refl

change_mode-switch_mode :
    (value mask : ℕ) (p : Processor) (m : Mode)
    → m ≢ p.mode
    → change_mode (some m) (write_cpsr value mask p) ≡ switch_mode m (write_cpsr value mask p)
unfolding change_mode write_cpsr
change_mode-switch_mode value mask p m n = rw (same_mode-false p.mode m (λ e. n (sym e))) refl

-- On a change of mode the flags read back are those that the mode entered had when it was left last.
pub storecpsr-loadcpsr_mode :
    (value mask : ℕ) (p : Processor) (m : Mode)
    → mask % 32 ≢ 0
    → mode_of (written value mask p % 32) ≡ some m
    → m ≢ p.mode
    → storecpsr (loadcpsr value mask p)
      ≡ written value mask p % 2 ^ 27 + x86_to_flags (p.context m).x86_flags
unfolding storecpsr
storecpsr-loadcpsr_mode value mask p m h e n =
    let w = write_cpsr value mask p in
    let entered =
      loadcpsr-change_mode value mask p (some m) h e ∙ change_mode-switch_mode value mask p m n in
    let c = ap ctx entered ∙ ctx-switch_mode m w in
    let number = ap (λ k. k.cpsr) c ∙ ctx-write_cpsr-cpsr value mask p in
    let flags =
      ap (λ k. k.x86_flags) c ∙ ap (λ k. k.x86_flags) (write_cpsr-context value mask p m n) in
    ap₂ (λ a b. a % 2 ^ 27 + x86_to_flags b) number flags
