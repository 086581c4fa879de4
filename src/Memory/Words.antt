-- ===== src/Memory/Words.antt =====
-- Words, halfwords and bytes over one page (Core/HLE.cpp).
use ndse_core.Base.{ℕ, zero, suc, ◌+◌, ◌*◌, ◌/◌, ◌%◌, ◌^◌, ◌<◌, ◌≡◌, ◌≢◌, arith}
use ndse_core.Memory.{word, half, put_word, put_half}

pub word-put_word : (i v : ℕ) (mem : ℕ → ℕ) → v < 2 ^ 32 → word (put_word i v mem) i ≡ v
unfolding word put_word
word-put_word i v mem h = ground arith

pub half-put_half : (i v : ℕ) (mem : ℕ → ℕ) → half (put_half i v mem) i ≡ v % 2 ^ 16
unfolding half put_half
half-put_half i v mem = ground arith

-- A byte outside of the word written stays.
pub put_word-away :
    (i v j : ℕ) (mem : ℕ → ℕ) → j / 4 ≢ i / 4 → i % 4 ≡ 0 → put_word i v mem j ≡ mem j
unfolding put_word
put_word-away i v j mem h a = ground arith

pub put_half-away :
    (i v j : ℕ) (mem : ℕ → ℕ) → j / 2 ≢ i / 2 → i % 2 ≡ 0 → put_half i v mem j ≡ mem j
unfolding put_half
put_half-away i v j mem h a = ground arith

-- The bytes of a word, each at its place.
pub put_word-byte :
    (i v k : ℕ) (mem : ℕ → ℕ) → k < 4 → put_word i v mem (i + k) ≡ v / 2 ^ (8 * k) % 2 ^ 8
unfolding put_word
put_word-byte i v zero mem h = ground arith
put_word-byte i v (suc zero) mem h = ground arith
put_word-byte i v (suc (suc zero)) mem h = ground arith
put_word-byte i v (suc (suc (suc zero))) mem h = ground arith
put_word-byte i v (suc (suc (suc (suc k)))) mem h = absurd (omega arith)
