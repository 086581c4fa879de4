-- ===== src/Memory/Plain.antt =====
-- Loads and stores on pages with no access handler (Core/HLE.cpp).
use ndse_core.Base.{ℕ, ◌*◌, ◌/◌, ◌%◌, ◌^◌, ◌<◌, ◌≡◌, ◌≢◌, ◌⊎◌, arith, ◌==◌, false}
use ndse_core.Base.{refl, ap, ap₂, sym, ◌∙◌, rotr32, ◌||◌, true, inl, inr, Bool}
use ndse_core.Memory.{Memory, MemoryBlock, Handlers, dirty, word, put_word}
use ndse_core.Memory.{addr2page, page, debug_break, with_mem}
use ndse_core.Memory.{word_offset, write_page}
use ndse_core.Memory.{load32, store32}
use ndse_core.Memory.Words.{word-put_word, put_word-away}

-- Present, with no protection and no access handler.
pub record IsPlain (b : MemoryBlock) : Type 0 where
  pub present : b.flags.invalid ≡ false
  pub readable : b.flags.readprot ≡ false
  pub writable : b.flags.writeprot ≡ false
  pub direct : b.flags.accesshandler ≡ false

or_true : (b : Bool) → (b || true) ≡ true
or_true true = refl
or_true false = refl

==_refl : (a : ℕ) → (a == a) ≡ true
==_refl a = ground arith

==_ne : (a b : ℕ) → a ≢ b → (a == b) ≡ false
==_ne a b h = ground arith

-- A block once written: its flags allow what they did.
pub dirty-IsPlain : {b : MemoryBlock} (mem : ℕ → ℕ) → IsPlain b → IsPlain (dirty (with_mem mem b))
unfolding dirty
dirty-IsPlain mem v = record {
  present = v.present;
  readable = v.readable;
  writable = v.writable;
  direct = v.direct;
}

module _ {D : Type 0} (h : Handlers D) where
  pub store32-plain :
      (addr value : ℕ) (m : Memory D)
      → IsPlain (page addr m)
      → store32 h addr value m
        ≡ write_page addr (put_word (word_offset addr) value (page addr m).mem) m
  unfolding store32
  store32-plain addr value m v = rw (v.direct, v.present, v.writable) refl

  -- The block that a store writes, as seen through any page.
  pub block-write_page :
      (addr id : ℕ) (mem : ℕ → ℕ) (m : Memory D)
      → id ≡ addr2page addr m
      → (write_page addr mem m).block id ≡ dirty (with_mem mem (page addr m))
  block-write_page addr id mem m e = rw (e, ==_refl (addr2page addr m)) refl

  pub block-write_page_ne :
      (addr id : ℕ) (mem : ℕ → ℕ) (m : Memory D)
      → id ≢ addr2page addr m
      → (write_page addr mem m).block id ≡ m.block id
  block-write_page_ne addr id mem m e = rw (==_ne id (addr2page addr m) e) refl

  pub load32-plain :
      (addr : ℕ) (m : Memory D)
      → (page addr m).flags.invalid ≡ false
      → (page addr m).flags.readprot ≡ false
      → (page addr m).flags.accesshandler ≡ false
      → load32 h addr m ≡ (rotr32 (word (page addr m).mem (word_offset addr)) (addr % 4 * 8), m)
  unfolding load32
  load32-plain addr m p r d = rw (p, r, d) refl

  pub page-store32 :
      (addr addr' value : ℕ) (m : Memory D)
      → IsPlain (page addr m)
      → addr2page addr' m ≡ addr2page addr m
      → page addr' (store32 h addr value m)
        ≡ dirty (with_mem (put_word (word_offset addr) value (page addr m).mem) (page addr m))
  page-store32 addr addr' value m v e =
      ap (page addr') (store32-plain addr value m v)
      ∙ block-write_page addr (addr2page addr' m)
          (put_word (word_offset addr) value (page addr m).mem) m e

  -- A word stored is read back at every address of the same word, through any page that maps to the
  -- same block, rotated by the low bits of the address; the load changes nothing.
  pub load32-store32 :
      (addr addr' value : ℕ) (m : Memory D)
      → value < 2 ^ 32
      → IsPlain (page addr m)
      → addr2page addr' m ≡ addr2page addr m
      → word_offset addr' ≡ word_offset addr
      → load32 h addr' (store32 h addr value m)
        ≡ (rotr32 value (addr' % 4 * 8), store32 h addr value m)
  unfolding dirty
  load32-store32 addr addr' value m lt v e o =
      let s = store32 h addr value m in
      let mem = (page addr m).mem in
      let offset = word_offset addr in
      let seen = page-store32 addr addr' value m v e in
      let plain =
        load32-plain addr' s (ap (λ b. b.flags.invalid) seen ∙ v.present)
          (ap (λ b. b.flags.readprot) seen ∙ v.readable)
          (ap (λ b. b.flags.accesshandler) seen ∙ v.direct) in
      let stored = ap₂ word (ap (λ b. b.mem) seen) o ∙ word-put_word offset value mem lt in
      plain ∙ ap (λ w. (rotr32 w (addr' % 4 * 8), s)) stored

  -- A store leaves every byte alone that lies in another block, or in another word of the block.
  pub store32-away :
      (addr addr' value : ℕ) (m : Memory D)
      → IsPlain (page addr m)
      → (addr2page addr' m ≢ addr2page addr m) ⊎ (addr' % 2 ^ 9 / 4 ≢ addr % 2 ^ 9 / 4)
      → (page addr' (store32 h addr value m)).mem (addr' % 2 ^ 9)
        ≡ (page addr' m).mem (addr' % 2 ^ 9)
  unfolding dirty
  store32-away addr addr' value m v apart =
      let mem = put_word (word_offset addr) value (page addr m).mem in
      let written = store32-plain addr value m v in
      let same : (addr2page addr' m ≡ addr2page addr m) ⊎ (addr2page addr' m ≢ addr2page addr m) =
        ground arith in
      elim same [
        | inl e ↦
            ap (λ b. b.mem (addr' % 2 ^ 9)) (page-store32 addr addr' value m v e)
            ∙ put_word-away (word_offset addr) value (addr' % 2 ^ 9) (page addr m).mem
                (λ k. elim apart [ inl n ↦ n e | inr n ↦ n (k ∙ omega arith) ]) (omega arith)
            ∙ ap (λ id. (m.block id).mem (addr' % 2 ^ 9)) (sym e)
        | inr n ↦
            ap (λ k. (page addr' k).mem (addr' % 2 ^ 9)) written
            ∙ ap (λ b. b.mem (addr' % 2 ^ 9)) (block-write_page_ne addr (addr2page addr' m) mem m n)
      ]

  -- A store to a page that is not there or is protected stops in the debugger and writes nothing.
  pub store32-protected :
      (addr value : ℕ) (m : Memory D)
      → (page addr m).flags.accesshandler ≡ false
      → ((page addr m).flags.invalid ≡ true) ⊎ ((page addr m).flags.writeprot ≡ true)
      → store32 h addr value m ≡ debug_break m
  unfolding store32
  store32-protected addr value m d (inl e) = rw (d, e) refl
  store32-protected addr value m d (inr e) = rw (d, e, or_true) refl
