-- ===== src/Memory/Store.antt =====
-- `store32_array` of Core/HLE.cpp against single stores of a word.
use ndse_core.Base.{ℕ, zero, suc, ◌+◌, ◌/◌, ◌%◌, ◌^◌, ◌<◌, ◌≡◌, ◌≢◌, arith, ◌==◌}
use ndse_core.Base.{
  refl, ap, ap₂, sym, ◌∙◌, u32, false, inl, inr, List, [], ◌∷◌, Bool-cases, length,
}
use mathlib.Core.Path.{subst}
use ndse_core.Memory.{Memory, MemoryBlock, Handlers, dirty, put_word, no_write}
use ndse_core.Memory.{addr2page, page, with_block, with_mem, word_offset}
use ndse_core.Memory.{store32, store_words, store32_array}
use ndse_core.Memory.Plain.{IsPlain, store32-plain, dirty-IsPlain}
use ndse_core.Memory.Array.{ArePlain, first-IsPlain}

pub no_write-false : {b : MemoryBlock} → IsPlain b → no_write b ≡ false
no_write-false v = ground arith

-- The flags that `IsPlain` reads are those from before a write.
with_mem-IsPlain : {b : MemoryBlock} (mem : ℕ → ℕ) → IsPlain b → IsPlain (with_mem mem b)
with_mem-IsPlain mem v = record {
  present = v.present;
  readable = v.readable;
  writable = v.writable;
  direct = v.direct;
}

IsPlain-with_mem : {b : MemoryBlock} (mem : ℕ → ℕ) → IsPlain (with_mem mem b) → IsPlain b
IsPlain-with_mem mem v = record {
  present = v.present;
  readable = v.readable;
  writable = v.writable;
  direct = v.direct;
}

IsPlain-dirty : {b : MemoryBlock} → IsPlain (dirty b) → IsPlain b
unfolding dirty
IsPlain-dirty v = record {
  present = v.present;
  readable = v.readable;
  writable = v.writable;
  direct = v.direct;
}

dirty-mem : (b : MemoryBlock) → (dirty b).mem ≡ b.mem
unfolding dirty
dirty-mem b = refl

module _ {D : Type 0} where
  -- Two memories with the same bytes; pages that are plain in the first are plain in the second.
  record SameBytes (m m' : Memory D) : Type 0 where
    pub same_map : m.map ≡ m'.map
    pub same_mem : (id : ℕ) → (m.block id).mem ≡ (m'.block id).mem
    pub still_plain : (id : ℕ) → IsPlain (m.block id) → IsPlain (m'.block id)

  with_block-SameBytes :
      {m m' : Memory D} (id : ℕ) (b b' : MemoryBlock)
      → SameBytes m m'
      → b.mem ≡ b'.mem
      → (IsPlain b → IsPlain b')
      → SameBytes (with_block id b m) (with_block id b' m')
  with_block-SameBytes {m} {m'} id b b' r e p = record {
    same_map = r.same_map;
    same_mem = λ k. elim (Bool-cases (k == id)) [ inl t ↦ rw t e | inr t ↦ rw t (r.same_mem k) ];
    still_plain =
        λ k. elim (Bool-cases (k == id)) [ inl t ↦ rw t p | inr t ↦ rw t (r.still_plain k) ];
  }

  -- Writing a block back with the same bytes.
  rewrite-SameBytes :
      {m m' : Memory D} (id : ℕ) (b : MemoryBlock)
      → SameBytes m m'
      → b.mem ≡ (m.block id).mem
      → (IsPlain b → IsPlain (m.block id))
      → SameBytes (with_block id b m) m'
  rewrite-SameBytes {m} {m'} id b r e p = record {
    same_map = r.same_map;
    same_mem = λ k. elim (Bool-cases (k == id)) [
      | inl t ↦
          let k_id : k ≡ id = ground arith in
          rw t (e ∙ r.same_mem id ∙ ap (λ j. (m'.block j).mem) (sym k_id))
      | inr t ↦ rw t (r.same_mem k)
    ];
    still_plain = λ k. elim (Bool-cases (k == id)) [
      | inl t ↦ let k_id : k ≡ id = ground arith in rw (t, k_id) (λ v. r.still_plain id (p v))
      | inr t ↦ rw t (r.still_plain k)
    ];
  }

  -- A plain page stays plain when its block, or another, is replaced by a plain one.
  block-IsPlain :
      (k id : ℕ) (b : MemoryBlock) (m : Memory D)
      → (IsPlain (m.block id) → IsPlain b)
      → IsPlain (m.block k)
      → IsPlain ((with_block id b m).block k)
  block-IsPlain k id b m p v = elim (Bool-cases (k == id)) [
    | inl t ↦ let k_id : k ≡ id = ground arith in rw t (p (rw (← k_id) v))
    | inr t ↦ rw t v
  ]

  pub ArePlain-with_block :
      (num addr id : ℕ) (b : MemoryBlock) (m : Memory D)
      → (IsPlain (m.block id) → IsPlain b)
      → ArePlain num addr m
      → ArePlain num addr (with_block id b m)
  ArePlain-with_block zero addr id b m p v = block-IsPlain (addr2page addr m) id b m p v
  ArePlain-with_block (suc num) addr id b m p v = (
    block-IsPlain (addr2page addr m) id b m p v.0,
    ArePlain-with_block num (u32 (addr + 4)) id b m p v.1,
  )

module _ {D : Type 0} (h : Handlers D) where
  -- One store after the other.
  abbrev pub store_each : (words : List ℕ) (addr : ℕ) → Memory D → Memory D
  store_each [] addr m = m
  store_each (value ∷ words) addr m = store_each words (u32 (addr + 4)) (store32 h addr value m)

  -- A word stored into the block of its page, before the page is marked dirty.
  store_one :
      (cur value subaddr id : ℕ) (m m' : Memory D)
      → SameBytes m m'
      → subaddr ≡ word_offset cur
      → id ≡ addr2page cur m
      → IsPlain (page cur m)
      → SameBytes
          (with_block id (with_mem (put_word subaddr value (m.block id).mem) (m.block id)) m)
          (store32 h cur value m')
  unfolding dirty
  store_one cur value subaddr id m m' r o f v =
      let id' = addr2page cur m' in
      let same_id : id ≡ id' = f ∙ λ i. r.same_map i (cur / 2 ^ 9) in
      let there : IsPlain (page cur m') =
        subst (λ (map : ℕ → ℕ). IsPlain (m'.block (map (cur / 2 ^ 9)))) r.same_map
          (r.still_plain (addr2page cur m) v) in
      let mem = put_word subaddr value (m'.block id).mem in
      let written : ℕ → ℕ → Memory D = λ k s.
        with_block k (dirty (with_mem (put_word s value (m'.block k).mem) (m'.block k))) m' in
      let single : store32 h cur value m' ≡ written id subaddr =
        store32-plain h cur value m' there ∙ ap₂ written (sym same_id) (sym o) in
      rw single (
        with_block-SameBytes id (with_mem (put_word subaddr value (m.block id).mem) (m.block id))
          (dirty (with_mem mem (m'.block id))) r (ap (put_word subaddr value) (r.same_mem id))
          (λ w. dirty-IsPlain mem (r.still_plain id (IsPlain-with_mem _ w))))

  store_words-store_each :
      (words : List ℕ) (cur subaddr addr id : ℕ) (m m' : Memory D)
      → SameBytes m m'
      → cur % 4 ≡ 0
      → cur < 2 ^ 32
      → addr < 2 ^ 32
      → subaddr ≡ cur % 2 ^ 9
      → addr / 2 ^ 9 ≡ cur / 2 ^ 9
      → id ≡ addr2page cur m
      → ArePlain (length words) cur m
      → SameBytes (store_words words subaddr addr id m) (store_each words cur m')
        × ((store_words words subaddr addr id m).breaks ≡ m.breaks)
  unfolding store_words
  store_words-store_each [] cur subaddr addr id m m' r a b c d e f v =
      (rewrite-SameBytes id (dirty (m.block id)) r (dirty-mem (m.block id)) IsPlain-dirty, refl)
  store_words-store_each (value ∷ words) cur subaddr addr id m m' r a b c d e f v =
      let cur' = u32 (cur + 4) in
      let addr' = u32 (addr + 2 ^ 9) in
      let id' = addr2page addr' m in
      let mem = put_word subaddr value (m.block id).mem in
      let stored = with_block id (with_mem mem (m.block id)) m in
      let finished = with_block id (dirty (stored.block id)) stored in
      let single = store32 h cur value m' in
      let r1 = store_one cur value subaddr id m m' r (omega arith) f v.0 in
      let v1 =
        ArePlain-with_block (length words) cur' id (with_mem mem (m.block id)) m
          (with_mem-IsPlain mem) v.1 in
      elim (Bool-cases (subaddr + 4 == 2 ^ 9)) [
        | inl t ↦
            let last : subaddr + 4 ≡ 2 ^ 9 = ground arith in
            let id_next : id' ≡ addr2page cur' m = ap m.map (omega arith) in
            let r2 =
              rewrite-SameBytes id (dirty (stored.block id)) r1 (dirty-mem (stored.block id))
                IsPlain-dirty in
            let v2 =
              ArePlain-with_block (length words) cur' id (dirty (stored.block id)) stored
                (λ w. dirty-IsPlain (stored.block id).mem w) v1 in
            let open_page =
              ap (λ k. no_write (finished.block k)) id_next
              ∙ no_write-false (first-IsPlain (length words) cur' finished v2) in
            rw (t, open_page)
              (store_words-store_each words cur' 0 addr' id' finished single r2 (omega arith)
                (omega arith) (omega arith) (omega arith) (omega arith) id_next v2)
        | inr t ↦
            let more : subaddr + 4 ≢ 2 ^ 9 = ground arith in
            let same_page : cur / 2 ^ 9 ≡ cur' / 2 ^ 9 = omega arith in
            rw t (
              store_words-store_each words cur' (subaddr + 4) addr id stored single r1 (omega arith)
                (omega arith) c (omega arith) (e ∙ same_page) (f ∙ ap m.map same_page) v1)
      ]

  -- From a word-aligned address, over plain pages, `store32_array` leaves the bytes that stores of one
  -- word after the other leave, and does not stop.
  pub store32_array-store_each :
      (addr : ℕ) (words : List ℕ) (m : Memory D)
      → addr % 4 ≡ 0
      → addr < 2 ^ 32
      → ArePlain (length words) addr m
      → let result = store32_array h addr words m in
        ((id : ℕ) → (result.block id).mem ≡ ((store_each words addr m).block id).mem)
        × (result.breaks ≡ m.breaks)
  unfolding store32_array
  store32_array-store_each addr words m a b v =
      let p = first-IsPlain (length words) addr m v in
      let start : SameBytes m m = record {
        same_map = refl;
        same_mem = λ id. refl;
        still_plain = λ id w. w;
      } in
      let all =
        store_words-store_each words addr (word_offset addr) addr (addr2page addr m) m m start a b b
          (omega arith) refl refl v in
      rw (p.direct, no_write-false p) (all.0.same_mem, all.1)
