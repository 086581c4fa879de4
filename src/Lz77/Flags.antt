-- ===== src/Lz77/Flags.antt =====
-- The flag bytes of the LZ77 format (Core/lz77.h).
use ndse_core.Base.{ℕ, zero, suc, ◌+◌, ◌-◌, ◌*◌, ◌/◌, ◌%◌, ◌^◌, ◌<◌, ◌≡◌, arith, ap, ◌∙◌}
use ndse_core.Base.{◌==◌, if◌then◌else◌, true, false, List, [], ◌∷◌, ◌++◌, u32}
use mathlib.Core.List.{append_assoc}
use native.Mathlib.Nat.{pow-suc}
use ndse_core.Lz77.{Decoder, next_flag}
use ndse_core.Lz77.Encode.{Token, Tape, tape, next_byte, flag_of, flag_bits, payload, encode_tokens}
use ndse_core.Lz77.Window.{Holds}

flag_of-lt : (t : Token) → flag_of t < 2
flag_of-lt (Token.byte c) = omega arith
flag_of-lt (Token.back j n) = omega arith

pub flag_bits-lt : (n : ℕ) (ts : List Token) → flag_bits n ts < 2 ^ n
flag_bits-lt zero ts = omega arith
flag_bits-lt (suc n) [] = omega (arith, pow-suc 2 n, flag_bits-lt n [])
flag_bits-lt (suc n) (t ∷ ts) = grind (arith, pow-suc 2 n, flag_bits-lt n ts, flag_of-lt t)

-- Shifting the flag byte brings the next flag to bit 7.
shifted :
    (k m low flags : ℕ)
    → k < 7
    → m < 2
    → low < 2 ^ k
    → flags * 2 % 2 ^ 8 ≡ (m * 2 ^ k + low) * 2 ^ (8 - suc k)
    → (u32 (flags * 2) / 2 ^ 7 % 2 ≡ m) × (u32 (flags * 2) * 2 % 2 ^ 8 ≡ low * 2 ^ (8 - k))
shifted zero m low flags a b c e = omega arith
shifted (suc zero) m low flags a b c e = omega arith
shifted (suc (suc zero)) m low flags a b c e = omega arith
shifted (suc (suc (suc zero))) m low flags a b c e = omega arith
shifted (suc (suc (suc (suc zero)))) m low flags a b c e = omega arith
shifted (suc (suc (suc (suc (suc zero))))) m low flags a b c e = omega arith
shifted (suc (suc (suc (suc (suc (suc zero)))))) m low flags a b c e = omega arith
shifted (suc (suc (suc (suc (suc (suc (suc k))))))) m low flags a b c e = absurd (omega arith)

-- Before a token: `k` flags of the flag byte are left, the tokens `ts` are to come, then `rest`.
pub record Ready (d : Decoder Tape) (h : List ℕ) (k : ℕ) (ts : List Token) (rest : List ℕ)
    : Type 0 where
  pub holds : Holds d h
  pub slots : d.z + k ≡ 7
  pub bits : 0 < k → d.flags * 2 % 2 ^ 8 ≡ flag_bits k ts * 2 ^ (8 - k)
  pub input : d.s.input ≡ encode_tokens k ts ++ rest

abbrev pub after : ℕ → ℕ
after zero = 7
after (suc k) = k

-- After the flag of a token was read, before its payload.
pub record Flagged (d : Decoder Tape) (h : List ℕ) (k : ℕ) (t : Token) (ts : List Token)
    (rest : List ℕ) : Type 0 where
  pub holds : Holds d h
  pub slots : d.z + k ≡ 7
  pub bits : d.flags * 2 % 2 ^ 8 ≡ flag_bits k ts * 2 ^ (8 - k)
  pub flag : d.flags / 2 ^ 7 % 2 ≡ flag_of t
  pub input : d.s.input ≡ payload t ++ (encode_tokens k ts ++ rest)

fresh_flags :
    (d : Decoder Tape)
    → d.z ≡ 7
    → next_flag tape d ≡ record d {
      s = record d.s { input = (next_byte d.s.input).1 };
      flags = (next_byte d.s.input).0;
      z = 0;
    }
unfolding next_flag
fresh_flags d e =
    let test : (d.z + 1 == 8) ≡ true = ground arith in
    let read : Decoder Tape = record d {
      s = record d.s { input = (next_byte d.s.input).1 };
      flags = (next_byte d.s.input).0;
      z = 0;
    } in
    let shift : Decoder Tape = record d { flags = u32 (d.flags * 2); z = d.z + 1 } in
    ap (λ b. if b then read else shift) test

next_flags :
    (d : Decoder Tape)
    → d.z < 7
    → next_flag tape d ≡ record d { flags = u32 (d.flags * 2); z = d.z + 1 }
unfolding next_flag
next_flags d e =
    let test : (d.z + 1 == 8) ≡ false = ground arith in
    let read : Decoder Tape = record d {
      s = record d.s { input = (next_byte d.s.input).1 };
      flags = (next_byte d.s.input).0;
      z = 0;
    } in
    let shift : Decoder Tape = record d { flags = u32 (d.flags * 2); z = d.z + 1 } in
    ap (λ b. if b then read else shift) test

-- The first flag of a fresh flag byte.
first_flag :
    (t : Token) (ts : List Token) (flags : ℕ)
    → flags ≡ flag_bits 8 (t ∷ ts)
    → (flags / 2 ^ 7 % 2 ≡ flag_of t) × (flags * 2 % 2 ^ 8 ≡ flag_bits 7 ts * 2 ^ (8 - 7))
first_flag t ts flags e = omega (arith, e, flag_bits-lt 7 ts, flag_of-lt t)

pub moved_on :
    {h : List ℕ} (d : Decoder Tape) (input : List ℕ) (flags z : ℕ)
    → Holds d h
    → Holds (record d { s = record d.s { input = input }; flags = flags; z = z }) h
moved_on d input flags z v = record {
  small = v.small;
  seen = v.seen;
  counted = v.counted;
  written = v.written;
}

pub next_flag-Flagged :
    (k : ℕ) (t : Token) (ts : List Token) (d : Decoder Tape) (h rest : List ℕ)
    → Ready d h k (t ∷ ts) rest
    → Flagged (next_flag tape d) h (after k) t ts rest
next_flag-Flagged zero t ts d h rest v =
    let last : d.z ≡ 7 = omega (arith, v.slots) in
    let first = first_flag t ts (next_byte d.s.input).0 (ap (λ x. (next_byte x).0) v.input) in
    rw (fresh_flags d last) (record {
      holds = moved_on d (next_byte d.s.input).1 (next_byte d.s.input).0 0 v.holds;
      slots = omega arith;
      bits = first.1;
      flag = first.0;
      input =
          ap (λ x. (next_byte x).1) v.input ∙ append_assoc (payload t) (encode_tokens 7 ts) rest;
    })
next_flag-Flagged (suc k) t ts d h rest v =
    let slots = v.slots in
    let more : (d.z < 7) × (k < 7) = omega (arith, slots) in
    let step =
      shifted k (flag_of t) (flag_bits k ts) d.flags more.1 (flag_of-lt t) (flag_bits-lt k ts)
        (v.bits (omega arith)) in
    rw (next_flags d more.0) (record {
      holds = moved_on d d.s.input (u32 (d.flags * 2)) (d.z + 1) v.holds;
      slots = omega (arith, slots);
      bits = step.1;
      flag = step.0;
      input = v.input ∙ append_assoc (payload t) (encode_tokens k ts) rest;
    })
