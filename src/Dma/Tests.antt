-- ===== src/Dma/Tests.antt =====
-- Tests of the DMA transfer, and an instance of each theorem about it.
use ndse_core.Base.{ℕ, ◌+◌, ◌*◌, ◌%◌, ◌^◌, ◌≡◌, refl, arith, [], some, false}
use ndse_core.Memory.{Memory, PageFlags, Handlers}
use ndse_core.Memory.Plain.{IsPlain}
use ndse_core.Dma.{Registers, start_dma}
use ndse_core.Dma.Copy.{copy_each, start_dma-copy_each}

abbrev open_flags : PageFlags
open_flags = record {
  readprot = false;
  writeprot = false;
  execprot = false;
  invalid = false;
  dirty_j7 = false;
  dirty_j9 = false;
  dirty_reactor = false;
  dirty_vram = false;
  dirty_sram = false;
  accesshandler = false;
  writeprot8 = false;
}

abbrev open_memory : Memory Unit
open_memory = record {
  map = λ p. p;
  block = λ id. record { flags = open_flags; mem = λ i. (id * 16 + i) % 2 ^ 8 };
  device = tt;
  breaks = 0;
}

abbrev unused : Handlers Unit
unused = record {
  load32 = λ addr m. (0, m);
  load16u = λ addr m. (0, m);
  load16s = λ addr m. (0, m);
  load8u = λ addr m. (0, m);
  store32 = λ addr value m. m;
  store16 = λ addr value m. m;
  store8 = λ addr value m. m;
  load32_array = λ addr num m. ([], m);
  store32_array = λ addr words m. m;
}

-- Two words from 0x1FC to 0x400.
abbrev two_words : Registers
two_words = record { src = 0x1FC; dst = 0x400; ctrl = 0x84000002 }

open_page : (id : ℕ) → IsPlain (open_memory.block id)
open_page id = record { present = refl; readable = refl; writable = refl; direct = refl }

start_dma-copy_each_example :
    start_dma unused 2 two_words open_memory
    ≡ some
        (record { src = 0x204; dst = 0x408; ctrl = 0 }, copy_each unused 2 0x1FC 0x400 open_memory)
start_dma-copy_each_example =
    start_dma-copy_each unused 2 two_words open_memory (refl, refl, refl, refl) refl
      (refl, omega arith, refl, omega arith) (open_page 0, (open_page 1, open_page 1))
      (open_page 2, (open_page 2, open_page 2))
