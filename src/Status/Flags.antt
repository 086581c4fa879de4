-- ===== src/Status/Flags.antt =====
-- The condition flags of the status register, kept as x86 flags (Core/HLE.cpp).
use ndse_core.Base.{
  if-else, ℕ, ◌+◌, ◌*◌, ◌/◌, ◌%◌, ◌^◌, ◌<◌, ◌≡◌, ◌≢◌, ◌⊎◌, refl, ap, sym, ◌∙◌, arith, some,
}
use ndse_core.Base.{Bool, inl, inr, ◌==◌, if◌then◌else◌, true, false}
use ndse_core.Base.Table.{tabulate, same_values}
use ndse_core.Status.{Mode, EmulationContext, Processor, ctx, mode_of, same_mode}
use ndse_core.Status.{flags_to_x86, x86_to_flags, storecpsr, loadcpsr, write_cpsr, change_mode}
use ndse_core.Status.{written_cpsr, with_context}

flag_table :
    tabulate (λ f. x86_to_flags (flags_to_x86 (f * 2 ^ 27))) 32 0
    ≡ tabulate (λ f. f / 2 * 2 ^ 28) 32 0
unfolding tabulate x86_to_flags flags_to_x86
flag_table = refl

-- The flags N, Z, C and V survive; the bit below them does not.
x86_to_flags-flags_to_x86 :
    (f : ℕ) → f < 32 → x86_to_flags (flags_to_x86 (f * 2 ^ 27)) ≡ f / 2 * 2 ^ 28
x86_to_flags-flags_to_x86 =
    same_values (λ f. x86_to_flags (flags_to_x86 (f * 2 ^ 27))) (λ f. f / 2 * 2 ^ 28) 32 flag_table

pub same_mode_refl : (m : Mode) → same_mode m m ≡ true
same_mode_refl Mode.user = refl
same_mode_refl Mode.supervisor = refl
same_mode_refl Mode.abort = refl
same_mode_refl Mode.undefined = refl
same_mode_refl Mode.interrupt = refl
same_mode_refl Mode.fastint = refl

pub ctx-with_context : (c : EmulationContext) (p : Processor) → ctx (with_context p.mode c p) ≡ c
ctx-with_context c p = rw (same_mode_refl p.mode) refl

-- What the current context holds after the register is written.
abbrev pub written : (value mask : ℕ) → Processor → ℕ
written value mask p = written_cpsr value mask (ctx p).cpsr

pub ctx-write_cpsr-cpsr :
    (value mask : ℕ) (p : Processor) → (ctx (write_cpsr value mask p)).cpsr ≡ written value mask p
unfolding write_cpsr
ctx-write_cpsr-cpsr value mask p = ap (λ c. c.cpsr) (ctx-with_context _ p)

-- Writing the register where the mask covers a flag, the flags read back are those written.
storecpsr-write_cpsr :
    (value mask : ℕ) (p : Processor)
    → mask / 2 ^ 27 % 32 ≢ 0
    → storecpsr (write_cpsr value mask p)
      ≡ written value mask p / 2 ^ 28 % 16 * 2 ^ 28 + written value mask p % 2 ^ 27
unfolding write_cpsr storecpsr
storecpsr-write_cpsr value mask p h =
    let w = written value mask p in
    let old = (ctx p).x86_flags in
    let new = flags_to_x86 (w / 2 ^ 27 % 32 * 2 ^ 27) in
    let synced = if mask / 2 ^ 27 % 32 == 0 then old else new in
    let c : EmulationContext = record (ctx p) { cpsr = w; x86_flags = synced } in
    let e : synced ≡ new = if-else (mask / 2 ^ 27 % 32) old new h in
    let f = x86_to_flags-flags_to_x86 (w / 2 ^ 27 % 32) (omega arith) in
    ap (λ k. k.cpsr % 2 ^ 27 + x86_to_flags k.x86_flags) (ctx-with_context c p)
    ∙ ap (λ x. w % 2 ^ 27 + x86_to_flags x) e
    ∙ omega (arith, f)

if_same : {A : Type 0} (b : Bool) {x y : A} → y ≡ x → (if b then x else y) ≡ x
if_same true e = refl
if_same false e = e

change_mode-same : (p : Processor) → change_mode (some p.mode) p ≡ p
unfolding change_mode
change_mode-same p = rw (same_mode_refl p.mode) refl

pub write_cpsr-mode : (value mask : ℕ) (p : Processor) → (write_cpsr value mask p).mode ≡ p.mode
unfolding write_cpsr
write_cpsr-mode value mask p = refl

unchanged_mode :
    (value mask : ℕ) (p : Processor)
    → (mask % 32 ≡ 0) ⊎ (mode_of (written value mask p % 32) ≡ some p.mode)
    → loadcpsr value mask p ≡ write_cpsr value mask p
unfolding loadcpsr
unchanged_mode value mask p (inl e) = rw e refl
unchanged_mode value mask p (inr e) =
    let w = write_cpsr value mask p in
    let bits = ap (λ x. mode_of (x % 32)) (ctx-write_cpsr-cpsr value mask p) ∙ e in
    if_same (mask % 32 == 0) (
      ap (λ m. change_mode m w) (bits ∙ ap some (sym (write_cpsr-mode value mask p)))
      ∙ change_mode-same w)

-- After `loadcpsr` with a mask that covers a flag and that leaves the mode alone, `storecpsr` reads
-- back the register as written, but for bit 27, which is 0.
pub storecpsr-loadcpsr :
    (value mask : ℕ) (p : Processor)
    → mask / 2 ^ 27 % 32 ≢ 0
    → (mask % 32 ≡ 0) ⊎ (mode_of (written value mask p % 32) ≡ some p.mode)
    → storecpsr (loadcpsr value mask p)
      ≡ written value mask p / 2 ^ 28 % 16 * 2 ^ 28 + written value mask p % 2 ^ 27
storecpsr-loadcpsr value mask p h kept =
    ap storecpsr (unchanged_mode value mask p kept) ∙ storecpsr-write_cpsr value mask p h
