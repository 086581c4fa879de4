-- ===== src/Memory/Stream.antt =====
-- `memory_map::process_memory` of Core/MemMap.h, which cuts a range of memory at the pages, and the
-- checksum over it of Core/HLE.cpp.
use ndse_core.Base.{
  ℕ, zero, suc, ◌+◌, ◌-◌, ◌/◌, ◌%◌, ◌^◌, ◌<◌, ◌≤◌, ◌≡◌, arith, ◌==◌, if◌then◌else◌,
}
use ndse_core.Base.{refl, ap, ap₂, sym, ◌∙◌, u32, ltb, Option, none, some, List, [], ◌∷◌, ◌++◌}
use ndse_core.Base.{false, ◌⊎◌}
use ndse_core.Base.{if-else}
use ndse_core.Memory.{Memory, MemoryBlock, addr2page, page, no_read}
use ndse_core.Crc.{get_crc16}
use ndse_core.Crc.Bitwise.{IsBytes, get_crc16-append, get_crc16-lt, get_crc16-nil}

-- `n` bytes of a page from `i` on.
unfoldable pub slice : (ℕ → ℕ) → (i n : ℕ) → List ℕ
slice mem i zero = []
slice mem i (suc n) = mem i ∷ slice mem (i + 1) n

abbrev pub smaller : ℕ → ℕ → ℕ
smaller a b = if ltb b a then b else a

module _ {D C : Type 0} (process : MemoryBlock → List ℕ → C → C) where
  -- The loop over the followup pages. `none` means that the fuel ran out.
  unfoldable pub followup_pages : (fuel addr len : ℕ) → Memory D → C → Option C
  followup_pages zero addr len m ctx = if len == 0 then some ctx else none
  followup_pages (suc fuel) addr len m ctx =
      let todo = smaller len (2 ^ 9) in
      let ctx' = process (page addr m) (slice (page addr m).mem 0 todo) ctx in
      let rest = followup_pages fuel (u32 (addr + todo)) (len - todo) m ctx' in
      if len == 0 then some ctx else rest

  unfoldable pub process_memory : (addr len : ℕ) → Memory D → C → Option C
  process_memory addr len m ctx =
      let subaddr = addr % 2 ^ 9 in
      let todo = smaller len (2 ^ 9 - subaddr) in
      let ctx' = process (page addr m) (slice (page addr m).mem subaddr todo) ctx in
      followup_pages len (u32 (addr + todo)) (len - todo) m ctx'

-- `stream_crc16::context`, with how often `DebugBreak_` stopped the program.
pub record CrcContext : Type 0 where
  pub crc : ℕ
  pub stops : ℕ

-- `stream_crc16::process`
unfoldable pub crc_process : MemoryBlock → List ℕ → CrcContext → CrcContext
crc_process b mem ctx = record {
  crc = get_crc16 (ctx.crc % 2 ^ 16) mem;
  stops = ctx.stops + (if no_read b then 1 else 0);
}

nothing_left :
    (ctx : CrcContext)
    → ctx.crc < 2 ^ 16
    → ◌≡◌ {A = Option CrcContext}
        (some ctx)
        (some (record { crc = get_crc16 ctx.crc []; stops = ctx.stops }))
nothing_left ctx h =
    ap (λ x. some (record { crc = x; stops = ctx.stops })) (sym (get_crc16-nil ctx.crc h))

module _ {D : Type 0} where
  -- `crc16_direct`: the value that R0 gets and that it returns.
  unfoldable pub crc16_direct : (crc addr len : ℕ) → Memory D → Option CrcContext
  crc16_direct crc addr len m =
      process_memory crc_process addr len m (record { crc = crc; stops = 0 })

  -- The bytes of a range of addresses, whichever pages they lie in.
  abbrev pub bytes_at : (addr len : ℕ) → Memory D → List ℕ
  bytes_at addr zero m = []
  bytes_at addr (suc len) m = (page addr m).mem (addr % 2 ^ 9) ∷ bytes_at (u32 (addr + 1)) len m

  -- Within a page the range is a slice of the page's bytes, and what follows starts after it.
  bytes_at-slice :
      (n rest len base addr : ℕ) (m : Memory D)
      → len ≡ n + rest
      → addr / 2 ^ 9 ≡ base / 2 ^ 9
      → addr % 2 ^ 9 + n ≤ 2 ^ 9
      → addr < 2 ^ 32
      → bytes_at addr len m
        ≡ slice (page base m).mem (addr % 2 ^ 9) n ++ bytes_at (u32 (addr + n)) rest m
  unfolding slice
  bytes_at-slice zero rest len base addr m t e h k =
      let same_addr : addr ≡ u32 (addr + 0) = omega arith in
      let same_len : len ≡ rest = omega arith in ap₂ (λ a l. bytes_at a l m) same_addr same_len
  bytes_at-slice (suc n) rest zero base addr m t e h k = absurd (omega arith)
  bytes_at-slice (suc zero) rest (suc len) base addr m t e h k =
      let same_len : len ≡ rest = omega arith in
      ap₂ (λ q l. (m.block (m.map q)).mem (addr % 2 ^ 9) ∷ bytes_at (u32 (addr + 1)) l m) e same_len
  bytes_at-slice (suc (suc n)) rest (suc len) base addr m t e h k =
      let next = u32 (addr + 1) in
      let offset : next % 2 ^ 9 ≡ addr % 2 ^ 9 + 1 = omega arith in
      let after : u32 (next + suc n) ≡ u32 (addr + suc (suc n)) = omega arith in
      let rest_of =
        bytes_at-slice (suc n) rest len base next m (omega arith) (omega arith) (omega arith)
          (omega arith) in
      let tail =
        rest_of
        ∙ ap₂ (λ o a. slice (page base m).mem o (suc n) ++ bytes_at a rest m) offset after in
      ap₂ (λ q bs. (m.block (m.map q)).mem (addr % 2 ^ 9) ∷ bs) e tail

  -- Every byte of memory is a byte.
  abbrev pub HoldsBytes : Memory D → Type 0
  HoldsBytes m = (id i : ℕ) → (m.block id).mem i < 256

  slice-IsBytes : (id i n : ℕ) (m : Memory D) → HoldsBytes m → IsBytes (slice (m.block id).mem i n)
  unfolding slice
  slice-IsBytes id i zero m v = tt
  slice-IsBytes id i (suc n) m v = (v id i, slice-IsBytes id (i + 1) n m v)

  -- The pages of a range of addresses can be read.
  abbrev pub IsReadable : (addr len : ℕ) → Memory D → Type 0
  IsReadable addr len m = (k : ℕ) → k < len → no_read (page (u32 (addr + k)) m) ≡ false

  IsReadable-drop :
      (addr len n : ℕ) (m : Memory D)
      → n ≤ len
      → IsReadable addr len m
      → IsReadable (u32 (addr + n)) (len - n) m
  IsReadable-drop addr len n m h v k lt =
      let same : u32 (u32 (addr + n) + k) ≡ u32 (addr + (n + k)) = omega arith in
      ap (λ a. no_read (page a m)) same ∙ v (n + k) (omega arith)

  -- One chunk within a page, and the rest of the range.
  chunk :
      (addr len todo : ℕ) (m : Memory D) (ctx : CrcContext)
      → addr % 2 ^ 9 + todo ≤ 2 ^ 9
      → addr < 2 ^ 32
      → todo ≤ len
      → 0 < len
      → ctx.crc < 2 ^ 16
      → HoldsBytes m
      → IsReadable addr len m
      → let ctx' = crc_process (page addr m) (slice (page addr m).mem (addr % 2 ^ 9) todo) ctx in
        (get_crc16 ctx'.crc (bytes_at (u32 (addr + todo)) (len - todo) m)
          ≡ get_crc16 ctx.crc (bytes_at addr len m))
        × (ctx'.stops ≡ ctx.stops)
        × (ctx'.crc < 2 ^ 16)
  unfolding crc_process
  chunk addr len todo m ctx a b c p d v r =
      let mem = (page addr m).mem in
      let piece = slice mem (addr % 2 ^ 9) todo in
      let after = bytes_at (u32 (addr + todo)) (len - todo) m in
      let small : ctx.crc % 2 ^ 16 ≡ ctx.crc = omega arith in
      let here : addr ≡ u32 (addr + 0) = omega arith in
      let open_page = ap (λ x. no_read (page x m)) here ∙ r 0 p in
      let bytes = slice-IsBytes (addr2page addr m) (addr % 2 ^ 9) todo m v in
      let whole = bytes_at-slice todo (len - todo) len addr addr m (omega arith) refl a b in
      (
        ap (λ x. get_crc16 (get_crc16 x piece) after) small
            ∙ sym (get_crc16-append ctx.crc piece after d bytes)
            ∙ ap (get_crc16 ctx.crc) (sym whole),
        rw open_page (omega arith),
        get_crc16-lt (ctx.crc % 2 ^ 16) piece,
      )

  followup_pages-get_crc16 :
      (fuel addr len : ℕ) (m : Memory D) (ctx : CrcContext)
      → (addr % 2 ^ 9 ≡ 0) ⊎ (len ≡ 0)
      → addr < 2 ^ 32
      → len ≤ fuel
      → ctx.crc < 2 ^ 16
      → HoldsBytes m
      → IsReadable addr len m
      → followup_pages crc_process fuel addr len m ctx
        ≡ some (record { crc = get_crc16 ctx.crc (bytes_at addr len m); stops = ctx.stops })
  unfolding followup_pages
  followup_pages-get_crc16 zero addr zero m ctx a b c d v r = nothing_left ctx d
  followup_pages-get_crc16 (suc fuel) addr zero m ctx a b c d v r = nothing_left ctx d
  followup_pages-get_crc16 zero addr (suc len) m ctx a b c d v r = absurd (omega arith)
  followup_pages-get_crc16 (suc fuel) addr (suc len) m ctx a b c d v r =
      let aligned : addr % 2 ^ 9 ≡ 0 = omega arith in
      let todo = smaller (suc len) (2 ^ 9) in
      let left = suc len - todo in
      let next = u32 (addr + todo) in
      let mem = (page addr m).mem in
      let result = λ (o : ℕ). crc_process (page addr m) (slice mem o todo) ctx in
      let facts : (suc len - todo ≤ fuel)
          × (todo ≤ 2 ^ 9)
          × (todo ≤ suc len)
          × ((todo ≡ 2 ^ 9) ⊎ (left ≡ 0)) =
        ground arith in
      let step = chunk addr (suc len) todo m ctx (omega arith) b facts.2 (omega arith) d v r in
      let rest =
        followup_pages-get_crc16 fuel next left m (result (addr % 2 ^ 9)) (omega arith)
          (omega arith) facts.0 step.2 v (IsReadable-drop addr (suc len) todo m facts.2 r) in
      if-else (suc len) (some ctx) (followup_pages crc_process fuel next left m (result 0))
        (λ e. absurd (omega arith))
      ∙ ap (λ o. followup_pages crc_process fuel next left m (result o)) (sym aligned)
      ∙ rest
      ∙ ap₂ (λ x n. some (record { crc = x; stops = n })) step.0 step.1

  -- The checksum over a range of memory that can be read is the checksum of its bytes, however the
  -- pages cut it; it always ends, and never stops in the debugger.
  pub crc16_direct-get_crc16 :
      (crc addr len : ℕ) (m : Memory D)
      → crc < 2 ^ 16
      → addr < 2 ^ 32
      → 0 < len
      → HoldsBytes m
      → IsReadable addr len m
      → crc16_direct crc addr len m
        ≡ some (record { crc = get_crc16 crc (bytes_at addr len m); stops = 0 })
  unfolding crc16_direct process_memory
  crc16_direct-get_crc16 crc addr len m d b p v r =
      let start : CrcContext = record { crc = crc; stops = 0 } in
      let subaddr = addr % 2 ^ 9 in
      let todo = smaller len (2 ^ 9 - subaddr) in
      let left = len - todo in
      let within : (subaddr + todo ≤ 2 ^ 9)
          × (todo ≤ len)
          × ((subaddr + todo ≡ 2 ^ 9) ⊎ (left ≡ 0)) =
        ground arith in
      let step = chunk addr len todo m start within.0 b within.1 p d v r in
      let ctx' = crc_process (page addr m) (slice (page addr m).mem subaddr todo) start in
      followup_pages-get_crc16 len (u32 (addr + todo)) left m ctx' (omega arith) (omega arith)
        (omega arith) step.2 v (IsReadable-drop addr len todo m within.1 r)
      ∙ ap₂ (λ x n. some (record { crc = x; stops = n })) step.0 step.1
