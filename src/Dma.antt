-- ===== src/Dma.antt =====
-- The DMA transfer of Core/dma.cpp. Its three registers are kept beside the memory: a transfer that
-- writes to its own registers is not covered.
pub mod Copy
mod Tests
use ndse_core.Base.{
  ℕ, zero, suc, ◌+◌, ◌-◌, ◌*◌, ◌/◌, ◌%◌, ◌^◌, ◌==◌, Bool, true, false, not, ◌||◌, ◌&&◌,
}
use ndse_core.Base.{
  if◌then◌else◌, u32, sub32, bit, field, switch, List, [], ◌∷◌, Option, none, some,
}
use ndse_core.Memory.{Memory, MemoryBlock, Handlers, dirty, word, half, put_word, put_half}
use ndse_core.Memory.{addr2page, page, with_block, with_mem, no_read, no_write}
use ndse_core.Memory.{load32, load16u, store32, store16}

-- Source address, destination address and control word.
pub record Registers : Type 0 where
  pub src : ℕ
  pub dst : ℕ
  pub ctrl : ℕ

-- `(ctrl & 0x801FFFFF) > 0x80000000`: enabled, with transfers left.
abbrev pub running : ℕ → Bool
running ctrl = bit ctrl 31 && not (ctrl % 2 ^ 21 == 0)

module _ {D : Type 0} (h : Handlers D) where
  -- Through the access handler where the page has one, else straight from the page. `id` is the block
  -- found for the destination before the source is read.
  unfoldable pub fetch32 : (src : ℕ) → Memory D → ℕ × Memory D
  fetch32 src m =
      if (page src m).flags.accesshandler
      then load32 h src m
      else (word (page src m).mem (src % 2 ^ 9), m)

  unfoldable pub deliver32 : (dst id value : ℕ) → Memory D → Memory D
  deliver32 dst id value m =
      let b = m.block id in
      let m' =
        if b.flags.accesshandler
        then store32 h dst value m
        else with_block id (with_mem (put_word (dst % 2 ^ 9) value b.mem) b) m in
      with_block id (dirty (m'.block id)) m'

  unfoldable pub transfer32 : (src dst : ℕ) → Memory D → Memory D
  transfer32 src dst m =
      let fetched = fetch32 src m in deliver32 dst (addr2page dst m) fetched.0 fetched.1

  unfoldable pub fetch16 : (src : ℕ) → Memory D → ℕ × Memory D
  fetch16 src m =
      if (page src m).flags.accesshandler
      then load16u h src m
      else (half (page src m).mem (src % 2 ^ 9), m)

  unfoldable pub deliver16 : (dst id value : ℕ) → Memory D → Memory D
  deliver16 dst id value m =
      let b = m.block id in
      let m' =
        if b.flags.accesshandler
        then store16 h dst value m
        else with_block id (with_mem (put_half (dst % 2 ^ 9) value b.mem) b) m in
      with_block id (dirty (m'.block id)) m'

  unfoldable pub transfer16 : (src dst : ℕ) → Memory D → Memory D
  transfer16 src dst m =
      let fetched = fetch16 src m in deliver16 dst (addr2page dst m) fetched.0 fetched.1

  -- What one round does to memory: nothing, where a page forbids it or an address is not aligned.
  unfoldable pub transfer : Registers → Memory D → Memory D
  transfer r m =
      if no_read (page r.src m) || no_write (page r.dst m)
      then m
      else if bit r.ctrl 26
      then if not (r.src % 4 == 0) || not (r.dst % 4 == 0) then m else transfer32 r.src r.dst m
      else if not (r.src % 2 == 0) || not (r.dst % 2 == 0)
      then m
      else transfer16 r.src r.dst m

-- The registers after a round.
unfoldable pub advance : Registers → Registers
advance r =
    let sz : ℕ = if bit r.ctrl 26 then 4 else 2 in
    record {
      src = switch (field r.ctrl 23 2) ((0, u32 (r.src + sz)) ∷ (1, sub32 r.src sz) ∷ []) r.src;
      dst =
          switch (field r.ctrl 21 2)
            ((3, u32 (r.dst + sz)) ∷ (0, u32 (r.dst + sz)) ∷ (1, sub32 r.dst sz) ∷ []) r.dst;
      ctrl = r.ctrl - 1;
    }

module _ {D : Type 0} (h : Handlers D) where
  -- `none` means that the fuel ran out. The source reads the registers from the register page in each
  -- round: a transfer into that page changes them, and one into a control word of it starts another
  -- transfer inside this one. Here they are apart from memory, so that neither is covered.
  unfoldable pub start_dma : (fuel : ℕ) → Registers → Memory D → Option (Registers × Memory D)
  start_dma zero r m = if running r.ctrl then none else some (record r { ctrl = 0 }, m)
  start_dma (suc fuel) r m =
      let rest = start_dma fuel (advance r) (transfer h r m) in
      if running r.ctrl then rest else some (record r { ctrl = 0 }, m)
