-- ===== src/Interpreter/Shape.antt =====
-- The registers of every mode across a tick of the interpreter (Core/HLCore.cpp).
use ndse_core.Base.{ℕ, ◌≡◌, Bool-cases, inl, inr, length}
use ndse_core.Base.{◌∙◌, length-set, set}
use ndse_core.Status.{Mode, Processor, EmulationContext, with_context, same_mode}
use ndse_core.Status.Modes.{IsWellFormed}
use ndse_core.Interpreter.{Core, set_reg_of, tick_of}
use ndse_core.Interpreter.{tick}

with_context-IsWellFormed :
    (m : Mode) (e : EmulationContext) (p : Processor)
    → length e.regs ≡ 16
    → IsWellFormed p
    → IsWellFormed (with_context m e p)
with_context-IsWellFormed m e p l v k = elim (Bool-cases (same_mode k m)) [
  | inl t ↦ rw t l
  | inr t ↦ rw t (v k)
]

set_reg_of-IsWellFormed :
    (m : Mode) (n x : ℕ) (p : Processor) → IsWellFormed p → IsWellFormed (set_reg_of m n x p)
set_reg_of-IsWellFormed m n x p v =
    with_context-IsWellFormed m (record (p.context m) { regs = set (p.context m).regs n x }) p
      (length-set (p.context m).regs n x ∙ v m) v

module _ {D : Type 0} where
  -- Sixteen registers in every mode.
  abbrev pub HasRegisters : Core D → Type 0
  HasRegisters c = IsWellFormed c.processor

  tick_of-HasRegisters : (m : Mode) (c : Core D) → HasRegisters c → HasRegisters (tick_of m c)
  tick_of-HasRegisters m c v = set_reg_of-IsWellFormed m 15 _ c.processor v

  pub tick-HasRegisters : (c : Core D) → HasRegisters c → HasRegisters (tick c)
  tick-HasRegisters c v = tick_of-HasRegisters c.processor.mode c v
