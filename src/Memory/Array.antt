-- ===== src/Memory/Array.antt =====
-- The array transfers of Core/HLE.cpp against single transfers of a word.
use ndse_core.Base.{
  ℕ, zero, suc, ◌+◌, ◌*◌, ◌/◌, ◌%◌, ◌^◌, ◌<◌, ◌≡◌, ◌≢◌, arith, ◌==◌, if◌then◌else◌,
}
use ndse_core.Base.{
  refl, ap, ap₂, sym, ◌∙◌, rotr32, u32, false, inl, inr, List, [], ◌∷◌, Bool-cases,
}
use ndse_core.Memory.{Memory, MemoryBlock, Handlers, word, no_read}
use ndse_core.Memory.{addr2page, page, debug_break, word_offset}
use ndse_core.Memory.{load32, load_words, load32_array}
use ndse_core.Memory.Plain.{IsPlain, load32-plain}

pub no_read-false : {b : MemoryBlock} → IsPlain b → no_read b ≡ false
no_read-false v = ground arith

module _ {D : Type 0} where
  -- The pages of `num` words from `addr` on are plain, and so is the page of the word after them.
  abbrev pub ArePlain : (num addr : ℕ) → Memory D → Type 0
  ArePlain zero addr m = IsPlain (page addr m)
  ArePlain (suc num) addr m = IsPlain (page addr m) × ArePlain num (u32 (addr + 4)) m

  pub first-IsPlain : (num addr : ℕ) (m : Memory D) → ArePlain num addr m → IsPlain (page addr m)
  first-IsPlain zero addr m v = v
  first-IsPlain (suc num) addr m v = v.0

rotr32-zero : (x : ℕ) → rotr32 x 0 ≡ x
rotr32-zero x = omega arith

module _ {D : Type 0} (h : Handlers D) where
  -- One load after the other.
  abbrev pub load_each : (num addr : ℕ) → Memory D → List ℕ
  load_each zero addr m = []
  load_each (suc num) addr m = (load32 h addr m).0 ∷ load_each num (u32 (addr + 4)) m

  -- The word at an aligned address of a plain page.
  pub load32-word :
      (addr : ℕ) (m : Memory D)
      → IsPlain (page addr m)
      → addr % 4 ≡ 0
      → (load32 h addr m).0 ≡ word (page addr m).mem (addr % 2 ^ 9)
  load32-word addr m v a =
      let whole = word (page addr m).mem (word_offset addr) in
      let aligned : word_offset addr ≡ addr % 2 ^ 9 = omega arith in
      let turned : addr % 4 * 8 ≡ 0 = omega arith in
      ap (λ r. r.0) (load32-plain h addr m v.present v.readable v.direct)
      ∙ ap (rotr32 whole) turned
      ∙ rotr32-zero whole
      ∙ ap (word (page addr m).mem) aligned

  load_words-load_each :
      (num cur subaddr addr id : ℕ) (m : Memory D)
      → cur % 4 ≡ 0
      → cur < 2 ^ 32
      → addr < 2 ^ 32
      → subaddr ≡ cur % 2 ^ 9
      → addr / 2 ^ 9 ≡ cur / 2 ^ 9
      → id ≡ addr2page cur m
      → ArePlain num cur m
      → load_words num subaddr addr id m ≡ (load_each num cur m, m)
  unfolding load_words
  load_words-load_each zero cur subaddr addr id m a b c d e f v = refl
  load_words-load_each (suc num) cur subaddr addr id m a b c d e f v =
      let cur' = u32 (cur + 4) in
      let addr' = u32 (addr + 2 ^ 9) in
      let id' = addr2page addr' m in
      let first = ap₂ (λ k o. word (m.block k).mem o) f d ∙ sym (load32-word cur m v.0 a) in
      let rest : List ℕ × Memory D =
        if subaddr + 4 == 2 ^ 9
        then if no_read (m.block id') then ([], debug_break m) else load_words num 0 addr' id' m
        else load_words num (subaddr + 4) addr id m in
      let next : rest ≡ (load_each num cur' m, m) = elim (Bool-cases (subaddr + 4 == 2 ^ 9)) [
        | inl t ↦
            let last : subaddr + 4 ≡ 2 ^ 9 = ground arith in
            let id_next : id' ≡ addr2page cur' m = ap m.map (omega arith) in
            let open_page =
              ap (λ k. no_read (m.block k)) id_next
              ∙ no_read-false (first-IsPlain num cur' m v.1) in
            rw (t, open_page)
              (load_words-load_each num cur' 0 addr' id' m (omega arith) (omega arith) (omega arith)
                (omega arith) (omega arith) id_next v.1)
        | inr t ↦
            let more : subaddr + 4 ≢ 2 ^ 9 = ground arith in
            let same_page : cur / 2 ^ 9 ≡ cur' / 2 ^ 9 = omega arith in
            rw t (
              load_words-load_each num cur' (subaddr + 4) addr id m (omega arith) (omega arith) c
                (omega arith) (e ∙ same_page) (f ∙ ap m.map same_page) v.1)
      ] in
      λ i. (first i ∷ (next i).0, (next i).1)

  -- From a word-aligned address, over plain pages, `load32_array` gives the words that loads one after
  -- the other give, and changes nothing.
  pub load32_array-load_each :
      (addr num : ℕ) (m : Memory D)
      → addr % 4 ≡ 0
      → addr < 2 ^ 32
      → ArePlain num addr m
      → load32_array h addr num m ≡ (load_each num addr m, m)
  unfolding load32_array
  load32_array-load_each addr num m a b v =
      let aligned : addr / 4 * 4 ≡ addr = omega arith in
      let p = first-IsPlain num addr m v in
      rw (aligned, no_read-false p, p.direct)
        (load_words-load_each num addr (addr % 2 ^ 9) addr (addr2page addr m) m a b b refl refl refl
          v)
