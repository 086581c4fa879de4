-- ===== src/Vram/Access.antt =====
-- The access handlers of video memory (`vram_region` of Core/vram.h).
use ndse_core.Base.{ℕ, ◌*◌, ◌%◌, ◌^◌, rotr32, []}
use ndse_core.Memory.{Memory, Handlers, page, addr2page, debug_break, with_block, with_mem, dirty}
use ndse_core.Memory.{word, half, put_word, put_half, word_offset, half_offset, sign16}

module _ {D : Type 0} (map9 : ℕ → ℕ) where
  -- Memory as `memory_map<_ARM9>` has it.
  abbrev pub on_map9 : Memory D → Memory D
  on_map9 m = record m { map = map9 }

  -- The page found on the ARM9's map gets new bytes; the map of the processor at work stays.
  abbrev pub write_page9 : (addr : ℕ) → (ℕ → ℕ) → Memory D → Memory D
  write_page9 addr mem m =
      with_block (addr2page addr (on_map9 m)) (dirty (with_mem mem (page addr (on_map9 m)))) m

  -- The handlers of either processor's pages. All of them look the address up on the ARM9's map,
  -- `map9`, whichever processor loads or stores.
  abbrev pub vram_region : Handlers D
  vram_region = record {
    load32 =
        λ addr m. (rotr32 (word (page addr (on_map9 m)).mem (word_offset addr)) (addr % 4 * 8), m);
    load16u = λ addr m. (half (page addr (on_map9 m)).mem (half_offset addr), m);
    load16s = λ addr m. (sign16 (half (page addr (on_map9 m)).mem (half_offset addr)), m);
    load8u = λ addr m. ((page addr (on_map9 m)).mem (addr % 2 ^ 9), m);
    store32 = λ addr value m.
        write_page9 addr (put_word (word_offset addr) value (page addr (on_map9 m)).mem) m;
    store16 = λ addr value m.
        write_page9 addr (put_half (half_offset addr) value (page addr (on_map9 m)).mem) m;
    store8 = λ addr value m. debug_break m;
    load32_array = λ addr num m. ([], debug_break m);
    store32_array = λ addr words m. debug_break m;
  }
