-- ===== src/Status/Numbers.antt =====
-- The mode bits as the processor's manual numbers them, against the switch of `loadcpsr`
-- (Core/HLE.cpp).
use ndse_core.Base.{ℕ, ◌+◌, ◌-◌, ◌%◌, ◌^◌, ◌<◌, ◌≡◌, ◌≢◌, refl, ap, ◌∙◌, arith, some}
use ndse_core.Base.{if-holds}
use ndse_core.Base.Bits.{replaced_low5}
use ndse_core.Status.{Mode, Processor, ctx, mode_of, same_mode, written_cpsr, write_cpsr}
use ndse_core.Status.{switch_mode, change_mode, loadcpsr}
use ndse_core.Status.Flags.{written}
use ndse_core.Status.Bank.{loadcpsr-change_mode, loadcpsr-mode, loadcpsr-invalid, write_cpsr-breaks}

-- The modes of the processor.
pub data ArmMode : Type 0 where
  usr fiq irq svc abt und sys : ArmMode

abbrev pub number : ArmMode → ℕ
number ArmMode.usr = 0x10
number ArmMode.fiq = 0x11
number ArmMode.irq = 0x12
number ArmMode.svc = 0x13
number ArmMode.abt = 0x17
number ArmMode.und = 0x1B
number ArmMode.sys = 0x1F

-- The mode and the number of stops after a load of a mode's number. The number of abort mode is not
-- known to the switch.
abbrev pub outcome : ArmMode → Processor → Mode × ℕ
outcome ArmMode.usr p = (Mode.user, p.breaks)
outcome ArmMode.fiq p = (Mode.fastint, p.breaks)
outcome ArmMode.irq p = (Mode.interrupt, p.breaks)
outcome ArmMode.svc p = (Mode.supervisor, p.breaks)
outcome ArmMode.abt p = (p.mode, p.breaks + 1)
outcome ArmMode.und p = (Mode.undefined, p.breaks)
outcome ArmMode.sys p = (Mode.user, p.breaks)

change_mode-breaks : (m : Mode) (p : Processor) → (change_mode (some m) p).breaks ≡ p.breaks
unfolding change_mode switch_mode
change_mode-breaks m p =
    if-holds (λ (q : Processor). q.breaks ≡ p.breaks) (same_mode p.mode m) refl refl

loadcpsr-breaks :
    (value mask : ℕ) (p : Processor) (m : Mode)
    → mask % 32 ≢ 0
    → mode_of (written value mask p % 32) ≡ some m
    → (loadcpsr value mask p).breaks ≡ p.breaks
loadcpsr-breaks value mask p m h e =
    ap (λ q. q.breaks) (loadcpsr-change_mode value mask p (some m) h e)
    ∙ change_mode-breaks m (write_cpsr value mask p)
    ∙ write_cpsr-breaks value mask p

written_bits :
    (value mask : ℕ) (p : Processor)
    → mask < 2 ^ 32
    → mask % 32 ≡ 31
    → written value mask p % 32 ≡ value % 32
unfolding written_cpsr
written_bits value mask p b h =
    replaced_low5 (ctx p).cpsr value (2 ^ 32 - 1 - mask) mask (omega arith) h

entered :
    (m : Mode) (value mask : ℕ) (p : Processor)
    → mask % 32 ≡ 31
    → mode_of (written value mask p % 32) ≡ some m
    → let q = loadcpsr value mask p in
      (q.mode ≡ m) × (q.breaks ≡ p.breaks) × ((ctx q).cpsr ≡ written value mask p)
entered m value mask p h e =
    let r = loadcpsr-mode value mask p m (omega arith) e in
    (r.0, loadcpsr-breaks value mask p m (omega arith) e, r.1)

named :
    (a : ArmMode) (value mask : ℕ) (p : Processor)
    → mask % 32 ≡ 31
    → written value mask p % 32 ≡ number a
    → let q = loadcpsr value mask p in
      (q.mode ≡ (outcome a p).0)
      × (q.breaks ≡ (outcome a p).1)
      × ((ctx q).cpsr ≡ written value mask p)
unfolding mode_of
named ArmMode.usr value mask p h e = entered Mode.user value mask p h (ap mode_of e)
named ArmMode.fiq value mask p h e = entered Mode.fastint value mask p h (ap mode_of e)
named ArmMode.irq value mask p h e = entered Mode.interrupt value mask p h (ap mode_of e)
named ArmMode.svc value mask p h e = entered Mode.supervisor value mask p h (ap mode_of e)
named ArmMode.abt value mask p h e = loadcpsr-invalid value mask p (omega arith) (ap mode_of e)
named ArmMode.und value mask p h e = entered Mode.undefined value mask p h (ap mode_of e)
named ArmMode.sys value mask p h e = entered Mode.user value mask p h (ap mode_of e)

-- A load under a mask of 32 bits that covers the mode bits with a mode's number, from whichever
-- mode, writes the number and enters the mode, in whose context system mode is user mode, without
-- a stop; on the number of abort mode it stops in the debugger once and stays in the mode.
pub loadcpsr-number :
    (a : ArmMode) (value mask : ℕ) (p : Processor)
    → mask < 2 ^ 32
    → mask % 32 ≡ 31
    → value % 32 ≡ number a
    → let q = loadcpsr value mask p in
      (q.mode ≡ (outcome a p).0) × (q.breaks ≡ (outcome a p).1) × ((ctx q).cpsr % 32 ≡ number a)
loadcpsr-number a value mask p b h e =
    let bits = written_bits value mask p b h ∙ e in
    let r = named a value mask p h bits in (r.0, r.1, ap (λ x. x % 32) r.2 ∙ bits)
