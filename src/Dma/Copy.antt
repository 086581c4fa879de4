-- ===== src/Dma/Copy.antt =====
-- A DMA transfer of words as a loop over the processor's own loads and stores (Core/dma.cpp).
use ndse_core.Base.{ℕ, zero, suc, ◌+◌, ◌*◌, ◌%◌, ◌^◌, ◌<◌, ◌≡◌, arith, refl, ap, ap₂, sym, ◌∙◌}
use ndse_core.Base.{◌==◌, if◌then◌else◌, true, false, some, inl, inr, Bool-cases, bit, field, u32}
use ndse_core.Base.{none}
use mathlib.Core.Path.{fun_ext}
use ndse_core.Memory.{Memory, MemoryBlock, Handlers, dirty, word, put_word, page, addr2page}
use ndse_core.Memory.{with_block, with_mem, word_offset, load32, store32}
use ndse_core.Memory.Plain.{IsPlain, store32-plain, dirty-IsPlain}
use ndse_core.Memory.Array.{ArePlain, no_read-false, load32-word}
use ndse_core.Memory.Store.{ArePlain-with_block, no_write-false}
use ndse_core.Dma.{Registers, running, advance, transfer, transfer32, fetch32, deliver32, start_dma}

-- Both addresses go up, a word at a time.
abbrev pub CountsUp : Registers → Type 0
CountsUp r =
    (bit r.ctrl 31 ≡ true)
    × (bit r.ctrl 26 ≡ true)
    × (field r.ctrl 23 2 ≡ 0)
    × (field r.ctrl 21 2 ≡ 0)

advance-CountsUp :
    (r : Registers)
    → CountsUp r
    → 0 < r.ctrl % 2 ^ 21
    → CountsUp (advance r)
      × ((advance r).src ≡ u32 (r.src + 4))
      × ((advance r).dst ≡ u32 (r.dst + 4))
      × ((advance r).ctrl % 2 ^ 21 + 1 ≡ r.ctrl % 2 ^ 21)
unfolding advance
advance-CountsUp r c p = ground arith

module _ {D : Type 0} where
  block-with_block : (id : ℕ) (b : MemoryBlock) (m : Memory D) → (with_block id b m).block id ≡ b
  block-with_block id b m = let same : (id == id) ≡ true = ground arith in rw same refl

  -- The last of two writes to one block counts.
  with_block-with_block :
      (id : ℕ) (b c : MemoryBlock) (m : Memory D)
      → with_block id b (with_block id c m) ≡ with_block id b m
  with_block-with_block id b c m =
      ap (λ f. record m { block = f })
        (fun_ext (λ k. elim (Bool-cases (k == id)) [ inl e ↦ rw e refl | inr e ↦ rw e refl ]))

module _ {D : Type 0} (h : Handlers D) where
  -- A word at a time.
  abbrev pub copy_each : (num src dst : ℕ) → Memory D → Memory D
  copy_each zero src dst m = m
  copy_each (suc num) src dst m =
      copy_each num (u32 (src + 4)) (u32 (dst + 4)) (store32 h dst (load32 h src m).0 m)

  fetch32-plain :
      (src : ℕ) (m : Memory D)
      → IsPlain (page src m)
      → src % 4 ≡ 0
      → fetch32 h src m ≡ ((load32 h src m).0, m)
  unfolding fetch32
  fetch32-plain src m v a =
      let value = word (page src m).mem (src % 2 ^ 9) in
      ap (λ t. if t then load32 h src m else (value, m)) v.direct
      ∙ ap (λ x. (x, m)) (sym (load32-word h src m v a))

  deliver32-store32 :
      (dst value : ℕ) (m : Memory D)
      → IsPlain (page dst m)
      → dst % 4 ≡ 0
      → deliver32 h dst (addr2page dst m) value m ≡ store32 h dst value m
  unfolding deliver32
  deliver32-store32 dst value m w b =
      let id = addr2page dst m in
      let written : ℕ → MemoryBlock =
        λ o. with_mem (put_word o value (page dst m).mem) (page dst m) in
      let stored : Memory D = with_block id (written (dst % 2 ^ 9)) m in
      let finish : Memory D → Memory D = λ m'. with_block id (dirty (m'.block id)) m' in
      let aligned : dst % 2 ^ 9 ≡ word_offset dst = omega arith in
      ap (λ t. finish (if t then store32 h dst value m else stored)) w.direct
      ∙ ap (λ b. with_block id (dirty b) stored) (block-with_block id (written (dst % 2 ^ 9)) m)
      ∙ with_block-with_block id (dirty (written (dst % 2 ^ 9))) (written (dst % 2 ^ 9)) m
      ∙ ap (λ o. with_block id (dirty (written o)) m) aligned
      ∙ sym (store32-plain h dst value m w)

  transfer32-store32 :
      (src dst : ℕ) (m : Memory D)
      → IsPlain (page src m)
      → IsPlain (page dst m)
      → src % 4 ≡ 0
      → dst % 4 ≡ 0
      → transfer32 h src dst m ≡ store32 h dst (load32 h src m).0 m
  unfolding transfer32
  transfer32-store32 src dst m v w a b =
      ap (λ f. deliver32 h dst (addr2page dst m) f.0 f.1) (fetch32-plain src m v a)
      ∙ deliver32-store32 dst (load32 h src m).0 m w b

  transfer-store32 :
      (r : Registers) (m : Memory D)
      → bit r.ctrl 26 ≡ true
      → IsPlain (page r.src m)
      → IsPlain (page r.dst m)
      → r.src % 4 ≡ 0
      → r.dst % 4 ≡ 0
      → transfer h r m ≡ store32 h r.dst (load32 h r.src m).0 m
  unfolding transfer
  transfer-store32 r m e v w a b =
      rw (no_read-false v, no_write-false w, e, a, b) (transfer32-store32 r.src r.dst m v w a b)

  ArePlain-store32 :
      (num addr dst value : ℕ) (m : Memory D)
      → IsPlain (page dst m)
      → ArePlain num addr m
      → ArePlain num addr (store32 h dst value m)
  ArePlain-store32 num addr dst value m w v =
      rw (store32-plain h dst value m w)
        (ArePlain-with_block num addr (addr2page dst m) _ m (λ p. dirty-IsPlain _ p) v)

  -- Over plain pages and aligned addresses that count up, a transfer of words ends with what copying
  -- one word after the other by the processor's loads and stores leaves, and with both addresses moved on.
  pub start_dma-copy_each :
      (num : ℕ) (r : Registers) (m : Memory D)
      → CountsUp r
      → r.ctrl % 2 ^ 21 ≡ num
      → (r.src % 4 ≡ 0) × (r.src < 2 ^ 32) × (r.dst % 4 ≡ 0) × (r.dst < 2 ^ 32)
      → ArePlain num r.src m
      → ArePlain num r.dst m
      → start_dma h num r m
        ≡ some (
          record { src = u32 (r.src + 4 * num); dst = u32 (r.dst + 4 * num); ctrl = 0 },
          copy_each num r.src r.dst m,
        )
  unfolding start_dma
  start_dma-copy_each zero r m c n a v w =
      let stopped : running r.ctrl ≡ false = ground arith in
      let src_stays : r.src ≡ u32 (r.src + 4 * 0) = omega arith in
      let dst_stays : r.dst ≡ u32 (r.dst + 4 * 0) = omega arith in
      ap (λ t. if t then none else some (record r { ctrl = 0 }, m)) stopped
      ∙ ap₂ (λ s d. some (record { src = s; dst = d; ctrl = 0 }, m)) src_stays dst_stays
  start_dma-copy_each (suc num) r m c n a v w =
      let value = (load32 h r.src m).0 in
      let m' = store32 h r.dst value m in
      let r' = advance r in
      let up = advance-CountsUp r c (omega arith) in
      let moved_src : u32 (u32 (r.src + 4) + 4 * num) ≡ u32 (r.src + 4 * suc num) = omega arith in
      let moved_dst : u32 (u32 (r.dst + 4) + 4 * num) ≡ u32 (r.dst + 4 * suc num) = omega arith in
      let goes : running r.ctrl ≡ true = ground arith in
      let v' = ArePlain-store32 num (u32 (r.src + 4)) r.dst value m w.0 v.1 in
      let w' = ArePlain-store32 num (u32 (r.dst + 4)) r.dst value m w.0 w.1 in
      ap (λ t. if t then start_dma h num r' (transfer h r m) else some (record r { ctrl = 0 }, m))
        goes
      ∙ ap (start_dma h num r') (transfer-store32 r m c.1 v.0 w.0 a.0 a.2)
      ∙ start_dma-copy_each num r' m' up.0 (omega arith) (ground arith) (rw up.1 v') (rw up.2 w')
      ∙ ap₂
          (λ s d. some (
            record { src = u32 (s + 4 * num); dst = u32 (d + 4 * num); ctrl = 0 },
            copy_each num s d m',
          ))
          up.1 up.2
      ∙ ap₂
          (λ s d. some (
            record { src = s; dst = d; ctrl = 0 },
            copy_each num (u32 (r.src + 4)) (u32 (r.dst + 4)) m',
          ))
          moved_src moved_dst
