-- ===== src/Interpreter/Transfer.antt =====
-- Transfers of the interpreter (Core/HLCore.cpp) through memory.
use ndse_core.Base.{ℕ, ◌+◌, ◌*◌, ◌%◌, ◌^◌, ◌<◌, ◌≡◌, ◌≢◌, arith, ◌==◌, if◌then◌else◌, bit, true}
use ndse_core.Base.{refl, ap, ap₂, sym, ◌∙◌, u32, neg32, rotr32, get_or, set, false}
use ndse_core.Base.{get_or-set_self, get_or-set_ne}
use ndse_core.Status.{ctx, mode_index}
use ndse_core.Memory.{Handlers, page, load32, store32}
use ndse_core.Memory.Plain.{IsPlain, load32-store32}
use ndse_core.Interpreter.{Core, reg, set_reg, tick, break_if_pc, addr_ip, undefined}
use ndse_core.Interpreter.{with_memory, load_reg, str_ip, ldr_ip}
use ndse_core.Interpreter.Shape.{HasRegisters, tick-HasRegisters}

==_ne : (a b : ℕ) → a ≢ b → (a == b) ≡ false
==_ne a b h = ground arith

module _ {D : Type 0} where
  regs-set_reg :
      (n v : ℕ) (c : Core D) → (ctx (set_reg n v c).processor).regs ≡ set (ctx c.processor).regs n v
  regs-set_reg n v c =
      let m = mode_index c.processor.mode in
      let here : (m == m) ≡ true = ground arith in rw here refl

  pub reg-set_reg_self :
      (n v : ℕ) (c : Core D) → n < 16 → HasRegisters c → reg n (set_reg n v c) ≡ v
  reg-set_reg_self n v c lt w =
      ap (λ rs. get_or rs n 0) (regs-set_reg n v c)
      ∙ get_or-set_self (ctx c.processor).regs n v 0 (omega (arith, w c.processor.mode))

  pub reg-set_reg_ne : (n m v : ℕ) (c : Core D) → n ≢ m → reg m (set_reg n v c) ≡ reg m c
  reg-set_reg_ne n m v c ne =
      ap (λ rs. get_or rs m 0) (regs-set_reg n v c)
      ∙ get_or-set_ne (ctx c.processor).regs n m v 0 ne

  -- The low registers do not see the program counter move.
  reg-tick : (n : ℕ) (c : Core D) → n < 15 → reg n (tick c) ≡ reg n c
  reg-tick n c lt = reg-set_reg_ne 15 n _ c (omega arith)

  addr_ip-low :
      (flags imm rn : ℕ) (c : Core D)
      → rn < 15
      → addr_ip flags imm rn c ≡ u32 ((if bit flags 1 then reg rn c else neg32 (reg rn c)) + imm)
  unfolding addr_ip
  addr_ip-low flags imm rn c lt = rw (==_ne rn 15 (omega arith)) refl

  addr_ip-tick :
      (flags imm rn : ℕ) (c : Core D)
      → rn < 15
      → addr_ip flags imm rn (tick c) ≡ addr_ip flags imm rn c
  addr_ip-tick flags imm rn c lt =
      addr_ip-low flags imm rn (tick c) lt
      ∙ ap (λ r. u32 ((if bit flags 1 then r else neg32 r) + imm)) (reg-tick rn c lt)
      ∙ sym (addr_ip-low flags imm rn c lt)

  break_if_pc-low : (n : ℕ) (c : Core D) → n < 15 → break_if_pc n c ≡ c
  break_if_pc-low n c lt = ap (λ b. if b then undefined c else c) (==_ne n 15 (omega arith))

  module _ (h : Handlers D) where
    str_ip-low :
        (flags imm rn rd : ℕ) (c : Core D)
        → rn < 15
        → rd < 15
        → str_ip h flags imm rn rd c
          ≡ with_memory (store32 h (addr_ip flags imm rn c) (reg rd c) c.memory) (tick c)
    unfolding str_ip
    str_ip-low flags imm rn rd c n d =
        ap
          (λ k.
            with_memory (store32 h (addr_ip flags imm rn (tick k)) (reg rd (tick k)) k.memory)
              (tick k))
          (break_if_pc-low rd c d)
        ∙ ap₂ (λ a v. with_memory (store32 h a v c.memory) (tick c)) (addr_ip-tick flags imm rn c n)
            (reg-tick rd c d)

    ldr_ip-low :
        (flags imm rn rd : ℕ) (c : Core D)
        → rn < 15
        → rd < 15
        → ldr_ip h flags imm rn rd c
          ≡ load_reg rd (load32 h (addr_ip flags imm rn c) c.memory) (tick c)
    unfolding ldr_ip
    ldr_ip-low flags imm rn rd c n d =
        ap (λ k. load_reg rd (load32 h (addr_ip flags imm rn (tick k)) k.memory) (tick k))
          (break_if_pc-low rd c d)
        ∙ ap (λ a. load_reg rd (load32 h a c.memory) (tick c)) (addr_ip-tick flags imm rn c n)

    -- `ldr` from the address that `str` stored a low register to, on a plain page, puts the register's
    -- value, rotated by the low bits of the address, into its own; memory has the word, and nothing stops.
    pub ldr_ip-str_ip :
        (flags imm rn rd rd' : ℕ) (c : Core D)
        → HasRegisters c
        → (rn < 15) × (rd < 15) × (rd' < 15)
        → reg rd c < 2 ^ 32
        → IsPlain (page (addr_ip flags imm rn c) c.memory)
        → let a = addr_ip flags imm rn c in
          let c' = ldr_ip h flags imm rn rd' (str_ip h flags imm rn rd c) in
          (reg rd' c' ≡ rotr32 (reg rd c) (a % 4 * 8))
          × (c'.memory ≡ store32 h a (reg rd c) c.memory)
          × (c'.processor.breaks ≡ c.processor.breaks)
    ldr_ip-str_ip flags imm rn rd rd' c w b lt v =
        let a = addr_ip flags imm rn c in
        let m = store32 h a (reg rd c) c.memory in
        let c1 = with_memory m (tick c) in
        let same : addr_ip flags imm rn c1 ≡ a =
          addr_ip-low flags imm rn c1 b.0
          ∙ sym (addr_ip-low flags imm rn (tick c) b.0)
          ∙ addr_ip-tick flags imm rn c b.0 in
        let c2 = load_reg rd' (rotr32 (reg rd c) (a % 4 * 8), m) (tick c1) in
        let loaded : ldr_ip h flags imm rn rd' (str_ip h flags imm rn rd c) ≡ c2 =
          ap (ldr_ip h flags imm rn rd') (str_ip-low flags imm rn rd c b.0 b.1)
          ∙ ldr_ip-low flags imm rn rd' c1 b.0 b.2
          ∙ ap (λ x. load_reg rd' (load32 h x m) (tick c1)) same
          ∙ ap (λ r. load_reg rd' r (tick c1))
              (load32-store32 h a a (reg rd c) c.memory lt v refl refl) in
        (
          ap (reg rd') loaded
              ∙ reg-set_reg_self rd' _ (tick c1) (omega arith)
                  (tick-HasRegisters c1 (tick-HasRegisters c w)),
          ap (λ k. k.memory) loaded,
          ap (λ k. k.processor.breaks) loaded,
        )
