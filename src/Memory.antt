-- ===== src/Memory.antt =====
-- The pages of emulated memory (Core/Mem.h, Core/MemMap.h) and the load and store functions that
-- translated code calls (Core/HLE.cpp), for one processor.
pub mod Array
pub mod Plain
pub mod Store
pub mod Stream
pub mod Words
mod Tests
use ndse_core.Base.{ℕ, zero, suc, ◌+◌, ◌-◌, ◌*◌, ◌/◌, ◌%◌, ◌^◌, ◌==◌, Bool, true, false, ◌||◌}
use ndse_core.Base.{if◌then◌else◌, ltb, rotr32, u32, List, [], ◌∷◌}

-- The bits of `memory_block::flags`, one Boolean to a bit.
pub record PageFlags : Type 0 where
  pub readprot : Bool
  pub writeprot : Bool
  pub execprot : Bool
  pub invalid : Bool
  pub dirty_j7 : Bool
  pub dirty_j9 : Bool
  pub dirty_reactor : Bool
  pub dirty_vram : Bool
  pub dirty_sram : Bool
  pub accesshandler : Bool
  pub writeprot8 : Bool

-- `memory_block`, less what the translator keeps in it. `mem` is read below 512.
pub record MemoryBlock : Type 0 where
  pub flags : PageFlags
  pub mem : ℕ → ℕ

-- Memory as one processor sees it: `map` gives the block of each page, and several pages can have
-- one block. `device` is what the access handlers keep; `breaks` counts the stops in the debugger.
pub record Memory (D : Type 0) : Type 0 where
  pub map : ℕ → ℕ
  pub block : ℕ → MemoryBlock
  pub device : D
  pub breaks : ℕ

-- The virtual functions of `memory_region_base` for pages with an access handler.
pub record Handlers (D : Type 0) : Type 0 where
  pub load32 : ℕ → Memory D → ℕ × Memory D
  pub load16u : ℕ → Memory D → ℕ × Memory D
  pub load16s : ℕ → Memory D → ℕ × Memory D
  pub load8u : ℕ → Memory D → ℕ × Memory D
  pub store32 : ℕ → ℕ → Memory D → Memory D
  pub store16 : ℕ → ℕ → Memory D → Memory D
  pub store8 : ℕ → ℕ → Memory D → Memory D
  pub load32_array : ℕ → ℕ → Memory D → List ℕ × Memory D
  pub store32_array : ℕ → List ℕ → Memory D → Memory D

-- `memory_block::dirty`
unfoldable pub dirty : MemoryBlock → MemoryBlock
dirty b = record b {
  flags = record b.flags {
    dirty_j7 = true;
    dirty_j9 = true;
    dirty_reactor = true;
    dirty_vram = true;
    dirty_sram = true;
  };
}

-- `memory_block::react`
unfoldable pub react : MemoryBlock → Bool × MemoryBlock
react b =
    if b.flags.dirty_reactor
    then (true, record b { flags = record b.flags { dirty_reactor = false } })
    else (false, b)

-- The bytes of a little-endian word or halfword at `i`.
unfoldable pub word : (ℕ → ℕ) → ℕ → ℕ
word mem i = mem i + mem (i + 1) * 2 ^ 8 + mem (i + 2) * 2 ^ 16 + mem (i + 3) * 2 ^ 24

unfoldable pub half : (ℕ → ℕ) → ℕ → ℕ
half mem i = mem i + mem (i + 1) * 2 ^ 8

abbrev pub put : (i v : ℕ) → (ℕ → ℕ) → ℕ → ℕ
put i v mem = λ k. if k == i then v else mem k

unfoldable pub put_word : (i value : ℕ) → (ℕ → ℕ) → ℕ → ℕ
put_word i value mem = put (i + 3) (value / 2 ^ 24 % 2 ^ 8) (
    put (i + 2) (value / 2 ^ 16 % 2 ^ 8)
      (put (i + 1) (value / 2 ^ 8 % 2 ^ 8) (put i (value % 2 ^ 8) mem)))

unfoldable pub put_half : (i value : ℕ) → (ℕ → ℕ) → ℕ → ℕ
put_half i value mem = put (i + 1) (value / 2 ^ 8 % 2 ^ 8) (put i (value % 2 ^ 8) mem)

-- `(signed short)h` and `(signed char)b`, as the word that they become.
abbrev pub sign16 : ℕ → ℕ
sign16 h = if ltb h (2 ^ 15) then h else h + (2 ^ 32 - 2 ^ 16)

abbrev pub with_mem : (ℕ → ℕ) → MemoryBlock → MemoryBlock
with_mem mem b = record b { mem = mem }

-- `PAGE_INVALID | PAGE_READPROT`, `PAGE_INVALID | PAGE_WRITEPROT`
abbrev pub no_read : MemoryBlock → Bool
no_read b = b.flags.invalid || b.flags.readprot

abbrev pub no_write : MemoryBlock → Bool
no_write b = b.flags.invalid || b.flags.writeprot

-- `addr & ADDRESS_MASK & ~3` and the like.
abbrev pub word_offset : ℕ → ℕ
word_offset addr = addr % 2 ^ 9 / 4 * 4

abbrev pub half_offset : ℕ → ℕ
half_offset addr = addr % 2 ^ 9 / 2 * 2

module _ {D : Type 0} where
  -- `addr2page`: the number of the block.
  abbrev pub addr2page : ℕ → Memory D → ℕ
  addr2page addr m = m.map (addr / 2 ^ 9)

  abbrev pub page : ℕ → Memory D → MemoryBlock
  page addr m = m.block (addr2page addr m)

  abbrev pub debug_break : Memory D → Memory D
  debug_break m = record m { breaks = m.breaks + 1 }

  abbrev pub with_block : ℕ → MemoryBlock → Memory D → Memory D
  with_block id b m = record m { block = λ k. if k == id then b else m.block k }

  -- An invalid read stops in the debugger and then goes on.
  abbrev pub check_read : ℕ → Memory D → Memory D
  check_read addr m = if no_read (page addr m) then debug_break m else m

  abbrev pub write_page : ℕ → (ℕ → ℕ) → Memory D → Memory D
  write_page addr mem m = with_block (addr2page addr m) (dirty (with_mem mem (page addr m))) m

  -- The loop of `load32_array`: the words that it put into the buffer.
  unfoldable pub load_words : (num subaddr addr id : ℕ) → Memory D → List ℕ × Memory D
  load_words zero subaddr addr id m = ([], m)
  load_words (suc num) subaddr addr id m =
      let value = word (m.block id).mem subaddr in
      let addr' = u32 (addr + 2 ^ 9) in
      let id' = addr2page addr' m in
      let stay = load_words num (subaddr + 4) addr id m in
      let turn = load_words num 0 addr' id' m in
      let rest =
        if subaddr + 4 == 2 ^ 9
        then if no_read (m.block id') then ([], debug_break m) else turn
        else stay in
      (value ∷ rest.0, rest.1)

  -- The loop of `store32_array`; `words` is what is left to store.
  unfoldable pub store_words : (words : List ℕ) (subaddr addr id : ℕ) → Memory D → Memory D
  store_words [] subaddr addr id m = with_block id (dirty (m.block id)) m
  store_words (value ∷ words) subaddr addr id m =
      let mem = put_word subaddr value (m.block id).mem in
      let stored = with_block id (with_mem mem (m.block id)) m in
      let finished = with_block id (dirty (stored.block id)) stored in
      let addr' = u32 (addr + 2 ^ 9) in
      let id' = addr2page addr' m in
      let stay = store_words words (subaddr + 4) addr id stored in
      let turn = store_words words 0 addr' id' finished in
      if subaddr + 4 == 2 ^ 9
      then if no_write (finished.block id') then debug_break finished else turn
      else stay

  module _ (h : Handlers D) where
    unfoldable pub load32 : ℕ → Memory D → ℕ × Memory D
    load32 addr m =
        if (page addr m).flags.accesshandler
        then h.load32 addr (check_read addr m)
        else (rotr32 (word (page addr m).mem (word_offset addr)) (addr % 4 * 8), check_read addr m)

    unfoldable pub load16u : ℕ → Memory D → ℕ × Memory D
    load16u addr m =
        if (page addr m).flags.accesshandler
        then h.load16u addr (check_read addr m)
        else (half (page addr m).mem (half_offset addr), check_read addr m)

    unfoldable pub load16s : ℕ → Memory D → ℕ × Memory D
    load16s addr m =
        if (page addr m).flags.accesshandler
        then h.load16s addr (check_read addr m)
        else (sign16 (half (page addr m).mem (half_offset addr)), check_read addr m)

    unfoldable pub load8u : ℕ → Memory D → ℕ × Memory D
    load8u addr m =
        if (page addr m).flags.accesshandler
        then h.load8u addr (check_read addr m)
        else ((page addr m).mem (addr % 2 ^ 9), check_read addr m)

    unfoldable pub store32 : (addr value : ℕ) → Memory D → Memory D
    store32 addr value m =
        if (page addr m).flags.accesshandler
        then h.store32 addr value m
        else if no_write (page addr m)
        then debug_break m
        else write_page addr (put_word (word_offset addr) value (page addr m).mem) m

    unfoldable pub store16 : (addr value : ℕ) → Memory D → Memory D
    store16 addr value m =
        if (page addr m).flags.accesshandler
        then h.store16 addr value m
        else if no_write (page addr m)
        then debug_break m
        else write_page addr (put_half (half_offset addr) value (page addr m).mem) m

    unfoldable pub store8 : (addr value : ℕ) → Memory D → Memory D
    store8 addr value m =
        if (page addr m).flags.accesshandler
        then h.store8 addr value m
        else if no_write (page addr m) || (page addr m).flags.writeprot8
        then debug_break m
        else write_page addr (put (addr % 2 ^ 9) (value % 2 ^ 8) (page addr m).mem) m

    unfoldable pub load32_array : (addr num : ℕ) → Memory D → List ℕ × Memory D
    load32_array addr num m =
        let aligned = addr / 4 * 4 in
        if no_read (page aligned m)
        then ([], debug_break m)
        else if (page aligned m).flags.accesshandler
        then h.load32_array aligned num m
        else load_words num (aligned % 2 ^ 9) aligned (addr2page aligned m) m

    unfoldable pub store32_array : (addr : ℕ) (words : List ℕ) → Memory D → Memory D
    store32_array addr words m =
        if (page addr m).flags.accesshandler
        then h.store32_array addr words m
        else if no_write (page addr m)
        then debug_break m
        else store_words words (word_offset addr) addr (addr2page addr m) m
