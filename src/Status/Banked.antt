-- ===== src/Status/Banked.antt =====
-- The banks of registers as the processor's manual has them, for the change of mode of `loadcpsr`
-- (Core/HLE.cpp).
use ndse_core.Base.{ℕ, ◌<◌, ◌≡◌, ◌≢◌, refl, ap, ap₂, sym, ◌∙◌, arith}
use ndse_core.Base.{
  Bool, false, if-holds, ltb, leb, ◌||◌, ◌&&◌, ◌==◌, if◌then◌else◌, length, get_or,
}
use ndse_core.Status.{Mode, EmulationContext, Processor, ctx, same_mode, with_context}
use ndse_core.Status.{mode_regs, shared_regs, switch_mode}
use ndse_core.Status.Flags.{same_mode_refl}
use ndse_core.Status.Modes.{IsWellFormed, same_mode-false}
use ndse_core.Status.Bank.{
  ctx-switch_mode, context-switch_mode, switch_mode-mode, switch_mode-regs,
  switch_mode-IsWellFormed,
}

-- Whether a mode has a register of its own: R8 to R14 in fast interrupt mode, R13 and R14 in the other
-- exception modes.
abbrev pub banked : Mode → ℕ → Bool
banked Mode.user i = false
banked Mode.fastint i = leb 8 i && ltb i 15
banked _ i = (i == 13) || (i == 14)

kept-banked :
    (a b : Mode) (i x y : ℕ)
    → i < 16
    → (if (i == 15) || ltb i (shared_regs a b) then x else y)
      ≡ (if banked a i || banked b i then y else x)
unfolding mode_regs
kept-banked a b i x y h = ground arith

-- With sixteen registers in every mode, after a change of mode each register that either mode has
-- of its own is that of the bank entered, and each other one and the status register are those of
-- the mode left.
pub switch_mode-banked :
    (m : Mode) (p : Processor) (i : ℕ)
    → IsWellFormed p
    → i < 16
    → (get_or (ctx (switch_mode m p)).regs i 0 ≡ (
        if banked p.mode i || banked m i
        then get_or (p.context m).regs i 0
        else get_or (ctx p).regs i 0))
      × ((ctx (switch_mode m p)).cpsr ≡ (ctx p).cpsr)
switch_mode-banked m p i v h = (
  switch_mode-regs m p i v
      ∙ kept-banked p.mode m i (get_or (ctx p).regs i 0) (get_or (p.context m).regs i 0) h,
  ap (λ c. c.cpsr) (ctx-switch_mode m p),
)

-- With sixteen registers in every mode, after a change to another mode, whatever that mode then
-- makes of its context of sixteen registers, and a change back, each register that either mode has
-- of its own is as it was, and each other one and the status register are as the other mode left
-- them.
pub switch_mode-back :
    (m : Mode) (p : Processor) (c : EmulationContext) (i : ℕ)
    → IsWellFormed p
    → length c.regs ≡ 16
    → m ≢ p.mode
    → i < 16
    → let back = ctx (switch_mode p.mode (with_context m c (switch_mode m p))) in
      (get_or back.regs i 0
        ≡ (if banked p.mode i || banked m i then get_or (ctx p).regs i 0 else get_or c.regs i 0))
      × (back.cpsr ≡ c.cpsr)
switch_mode-back m p c i v l n h =
    let q = with_context m c (switch_mode m p) in
    let entered = switch_mode-mode m p in
    let there : ctx q ≡ c =
      ap (λ k. if same_mode k m then c else (switch_mode m p).context k) entered
      ∙ rw (same_mode_refl m) refl in
    let left : q.context p.mode ≡ ctx p =
      rw (same_mode-false p.mode m (λ e. n (sym e)))
        (context-switch_mode p.mode m p (λ e. n (sym e))) in
    let w : IsWellFormed q = λ k.
      if-holds (λ (d : EmulationContext). length d.regs ≡ 16) (same_mode k m) l
        (switch_mode-IsWellFormed m p v k) in
    let back = switch_mode-banked p.mode q i w h in
    (
      back.0
          ∙ ap
              (λ k.
                if banked k i || banked p.mode i
                then get_or (q.context p.mode).regs i 0
                else get_or (ctx q).regs i 0)
              entered
          ∙ ap₂
              (λ (x y : EmulationContext).
                if banked m i || banked p.mode i then get_or x.regs i 0 else get_or y.regs i 0)
              left there
          ∙ ground arith,
      back.1 ∙ ap (λ d. d.cpsr) there,
    )
