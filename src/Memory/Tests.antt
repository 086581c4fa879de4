-- ===== src/Memory/Tests.antt =====
-- Tests of the loads and stores, and an instance of each theorem about them.
use ndse_core.Base.{Bool, ℕ, ◌+◌, ◌*◌, ◌%◌, ◌^◌, ◌≡◌, ◌==◌, refl, arith}
use ndse_core.Base.{[], ◌∷◌, some, false, rotr32}
use ndse_core.Memory.{Memory, PageFlags, Handlers}
use ndse_core.Memory.{load32, load16s, store32, store16}
use ndse_core.Memory.{load32_array, store32_array, word, half, put_half, dirty}
use ndse_core.Memory.Plain.{IsPlain, load32-store32, store32-away}
use ndse_core.Memory.{page}
use ndse_core.Base.{inr}
use ndse_core.Memory.Array.{ArePlain, load32_array-load_each}
use ndse_core.Memory.Store.{store_each, store32_array-store_each}
use ndse_core.Memory.Stream.{crc16_direct, HoldsBytes, IsReadable, crc16_direct-get_crc16}
use ndse_core.Crc.{get_crc16}

abbrev flags_of : Bool → PageFlags
flags_of writeprot = record {
  readprot = false;
  writeprot = writeprot;
  execprot = false;
  invalid = false;
  dirty_j7 = false;
  dirty_j9 = false;
  dirty_reactor = false;
  dirty_vram = false;
  dirty_sram = false;
  accesshandler = false;
  writeprot8 = false;
}

-- Pages 0, 4, 8 and so on have block 0, and so for 1, 2 and 3. Block 3 is protected.
abbrev mirrored : Memory Unit
mirrored = record {
  map = λ p. p % 4;
  block = λ id. record { flags = flags_of (id == 3); mem = λ i. (id * 16 + i) % 2 ^ 8 };
  device = tt;
  breaks = 0;
}

abbrev no_handlers : Handlers Unit
no_handlers = record {
  load32 = λ addr m. (0, m);
  load16u = λ addr m. (0, m);
  load16s = λ addr m. (0, m);
  load8u = λ addr m. (0, m);
  store32 = λ addr value m. m;
  store16 = λ addr value m. m;
  store8 = λ addr value m. m;
  load32_array = λ addr num m. ([], m);
  store32_array = λ addr words m. m;
}

block0-IsPlain : IsPlain (mirrored.block 0)
block0-IsPlain = record { present = refl; readable = refl; writable = refl; direct = refl }

block1-IsPlain : IsPlain (mirrored.block 1)
block1-IsPlain = record { present = refl; readable = refl; writable = refl; direct = refl }

load_rotated : (load32 no_handlers 0x201 mirrored).0 ≡ 0x10131211
unfolding load32 word
load_rotated = refl

load_signed : (load16s no_handlers 0x4F0 (store16 no_handlers 0x4F0 0x8001 mirrored)).0 ≡ 0xFFFF8001
unfolding load16s store16 half put_half dirty
load_signed = refl

load32-store32_example :
    load32 no_handlers 0x806 (store32 no_handlers 4 0x11223344 mirrored)
    ≡ (rotr32 0x11223344 16, store32 no_handlers 4 0x11223344 mirrored)
load32-store32_example =
    load32-store32 no_handlers 4 0x806 0x11223344 mirrored (omega arith) block0-IsPlain refl refl

-- The word behind, through another page of the same block.
store32-away_example :
    (page 0x809 (store32 no_handlers 4 0x11223344 mirrored)).mem 9 ≡ (page 0x809 mirrored).mem 9
store32-away_example =
    store32-away no_handlers 4 0x809 0x11223344 mirrored block0-IsPlain (inr (omega arith))

-- Two words, on each side of the end of page 0.
across : ArePlain 2 0x1FC mirrored
across = (block0-IsPlain, (block1-IsPlain, block1-IsPlain))

load32_array-load_each_example :
    load32_array no_handlers 0x1FC 2 mirrored ≡ (0xFFFEFDFC ∷ 0x13121110 ∷ [], mirrored)
unfolding load32 word
load32_array-load_each_example =
    load32_array-load_each no_handlers 0x1FC 2 mirrored refl (omega arith) across

store32_array-store_each_example :
    let result = store32_array no_handlers 0x1FC (5 ∷ 6 ∷ []) mirrored in
    ((id : ℕ)
      → (result.block id).mem ≡ ((store_each no_handlers (5 ∷ 6 ∷ []) 0x1FC mirrored).block id).mem)
    × (result.breaks ≡ 0)
store32_array-store_each_example =
    store32_array-store_each no_handlers 0x1FC (5 ∷ 6 ∷ []) mirrored refl (omega arith) across

mirrored-HoldsBytes : HoldsBytes mirrored
mirrored-HoldsBytes id i = omega arith

-- Four bytes over the end of page 0.
readable : IsReadable 0x1FE 4 mirrored
readable k lt = refl

crc16_direct-get_crc16_example :
    crc16_direct 0xFFFF 0x1FE 4 mirrored
    ≡ some (record { crc = get_crc16 0xFFFF (0xFE ∷ 0xFF ∷ 0x10 ∷ 0x11 ∷ []); stops = 0 })
crc16_direct-get_crc16_example =
    crc16_direct-get_crc16 0xFFFF 0x1FE 4 mirrored (omega arith) (omega arith) (omega arith)
      mirrored-HoldsBytes readable
