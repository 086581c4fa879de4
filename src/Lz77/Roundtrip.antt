-- ===== src/Lz77/Roundtrip.antt =====
-- The decoder of Core/lz77.h gives back what was encoded.
use ndse_core.Base.{
  ℕ, zero, suc, ◌+◌, ◌-◌, ◌*◌, ◌/◌, ◌%◌, ◌^◌, ◌<◌, ◌≤◌, ◌≡◌, arith, refl, ap, sym, ◌∙◌,
}
use ndse_core.Base.{if◌then◌else◌, true, false, List, [], ◌∷◌, ◌++◌, length, bit, ltb, some, none}
use mathlib.Core.Path.{subst}
use ndse_core.Base.{get_or}
use ndse_core.Lz77.{
  Decoder, round, literal, back_reference, emit_byte, copy_bytes, next_flag, loop, decode,
}
use ndse_core.Lz77.Encode.{Token, Tape, tape, next_byte, encode}
use ndse_core.Lz77.Encode.{expand, expand_token, copy_history, AreValid, TokenIsValid}
use ndse_core.Lz77.Window.{emit_byte-Holds, emit_byte-SameInput, copy_bytes-Holds}
use ndse_core.Lz77.Flags.{Ready, Flagged, after, next_flag-Flagged, moved_on}

literal-Ready :
    (c k : ℕ) (ts : List Token) (d : Decoder Tape) (h rest : List ℕ)
    → Flagged d h k (Token.byte c) ts rest
    → Ready (literal tape d) (c ∷ h) k ts rest
unfolding literal
literal-Ready c k ts d h rest f =
    let e = ap (λ x. (next_byte x).0) f.input in
    let d1 : Decoder Tape = record d { s = record d.s { input = (next_byte d.s.input).1 } } in
    let kept = emit_byte-SameInput c d1 in
    subst (λ x. Ready (emit_byte tape x d1) (c ∷ h) k ts rest) (sym e)
      (record {
        holds = emit_byte-Holds c d1 h (moved_on d d1.s.input d.flags d.z f.holds);
        slots = ap (λ z. z + k) kept.same_z ∙ f.slots;
        bits = λ p. ap (λ x. x * 2 % 2 ^ 8) kept.same_flags ∙ f.bits;
        input = kept.same_input ∙ ap (λ x. (next_byte x).1) f.input;
      })

back_reference-Ready :
    (j n k : ℕ) (ts : List Token) (d : Decoder Tape) (h rest : List ℕ)
    → TokenIsValid (Token.back j n) h
    → Flagged d h k (Token.back j n) ts rest
    → Ready (back_reference tape d) (copy_history n j h) k ts rest
unfolding back_reference
back_reference-Ready j n k ts d h rest v f =
    let bounds = v in
    let b1 = (next_byte d.s.input).0 in
    let b2 = (next_byte (next_byte d.s.input).1).0 in
    let left = (next_byte (next_byte d.s.input).1).1 in
    let e1 : b1 ≡ (n - 3) * 2 ^ 4 + j / 2 ^ 8 = ap (λ x. (next_byte x).0) f.input in
    let e2 : b2 ≡ j % 2 ^ 8 = ap (λ x. (next_byte (next_byte x).1).0) f.input in
    let count : n ≡ b1 / 2 ^ 4 + 2 + 1 = omega arith in
    let distance : j ≡ b1 % 2 ^ 4 * 2 ^ 8 + b2 = omega arith in
    let d1 : Decoder Tape = record d { s = record d.s { input = left } } in
    let copied = copy_bytes-Holds n j d1 h v.0 v.1 (moved_on d left d.flags d.z f.holds) in
    let kept = copied.1 in
    let done : Ready (copy_bytes tape n j d1) (copy_history n j h) k ts rest = record {
      holds = copied.0;
      slots = ap (λ z. z + k) kept.same_z ∙ f.slots;
      bits = λ p. ap (λ x. x * 2 % 2 ^ 8) kept.same_flags ∙ f.bits;
      input = kept.same_input ∙ ap (λ x. (next_byte (next_byte x).1).1) f.input;
    } in
    subst
      (λ x. Ready (copy_bytes tape x (b1 % 2 ^ 4 * 2 ^ 8 + b2) d1) (copy_history n j h) k ts rest)
      count
      (subst (λ x. Ready (copy_bytes tape n x d1) (copy_history n j h) k ts rest) distance done)

-- A round of the decoder takes one token.
round-Ready :
    (k : ℕ) (t : Token) (ts : List Token) (d : Decoder Tape) (h rest : List ℕ)
    → TokenIsValid t h
    → Ready d h k (t ∷ ts) rest
    → Ready (round tape d) (expand_token t h) (after k) ts rest
unfolding round
round-Ready k (Token.byte c) ts d h rest v r =
    let f = next_flag-Flagged k (Token.byte c) ts d h rest r in
    let d' = next_flag tape d in
    let flag = f.flag in
    let test : bit d'.flags 7 ≡ false = ground arith in
    subst
      (λ b. Ready (if b then back_reference tape d' else literal tape d') (c ∷ h) (after k) ts rest)
      (sym test) (literal-Ready c (after k) ts d' h rest f)
round-Ready k (Token.back j n) ts d h rest v r =
    let f = next_flag-Flagged k (Token.back j n) ts d h rest r in
    let d' = next_flag tape d in
    let flag = f.flag in
    let test : bit d'.flags 7 ≡ true = ground arith in
    subst
      (λ b.
        Ready (if b then back_reference tape d' else literal tape d') (copy_history n j h) (after k)
          ts rest)
      (sym test) (back_reference-Ready j n (after k) ts d' h rest v f)

length-copy_history : (n j : ℕ) (h : List ℕ) → length (copy_history n j h) ≡ length h + n
length-copy_history zero j h = omega arith
length-copy_history (suc n) j h = omega (arith, length-copy_history n j (get_or h j 0 ∷ h))

length-lt-expand_token :
    (t : Token) (h : List ℕ) → TokenIsValid t h → length h < length (expand_token t h)
length-lt-expand_token (Token.byte c) h v = omega arith
length-lt-expand_token (Token.back j n) h v = omega (arith, length-copy_history n j h)

length-le-expand : (ts : List Token) (h : List ℕ) → AreValid ts h → length h ≤ length (expand ts h)
length-le-expand [] h v = omega arith
length-le-expand (t ∷ ts) h v =
    omega (arith, length-lt-expand_token t h v.0, length-le-expand ts (expand_token t h) v.1)

loop-expand :
    (fuel total k : ℕ) (ts : List Token) (d : Decoder Tape) (h rest : List ℕ)
    → AreValid ts h
    → Ready d h k ts rest
    → total ≡ length (expand ts h)
    → total < 2 ^ 24
    → length ts ≤ fuel
    → (d' : Decoder Tape) × (loop tape fuel total d ≡ some d')
      × (d'.s.output ≡ expand ts h)
      × (d'.s.input ≡ rest)
unfolding loop
loop-expand zero total k [] d h rest v r e b c =
    let counted = r.holds.counted in
    let over : ltb d.cur_size total ≡ false = ground arith in
    (d, ap (λ t. if t then none else some d) over, r.holds.written, r.input)
loop-expand (suc fuel) total k [] d h rest v r e b c =
    let counted = r.holds.counted in
    let over : ltb d.cur_size total ≡ false = ground arith in
    (
      d,
      ap (λ t. if t then loop tape fuel total (round tape d) else some d) over,
      r.holds.written,
      r.input,
    )
loop-expand zero total k (t ∷ ts) d h rest v r e b c = absurd (omega arith)
loop-expand (suc fuel) total k (t ∷ ts) d h rest v r e b c =
    let counted = r.holds.counted in
    let grows = length-lt-expand_token t h v.0 in
    let ends = length-le-expand ts (expand_token t h) v.1 in
    let smaller : d.cur_size < total = omega arith in
    let more : ltb d.cur_size total ≡ true = ground arith in
    let next =
      loop-expand fuel total (after k) ts (round tape d) (expand_token t h) rest v.1
        (round-Ready k t ts d h rest v.0 r) e b (omega arith) in
    (
      next.0,
      ap (λ b. if b then loop tape fuel total (round tape d) else some d) more ∙ next.1,
      next.2,
      next.3,
    )

-- A message of fewer than 2^24 bytes, encoded from its tokens, is decoded to what they mean, with as
-- many rounds as there are tokens; what follows it in the input is left there.
pub decode-encode :
    (fuel : ℕ) (ts : List Token) (rest : List ℕ) (text_buf : ℕ → ℕ)
    → AreValid ts []
    → length (expand ts []) < 2 ^ 24
    → length ts ≤ fuel
    → (d : Decoder Tape) × (decode tape fuel
          (record { input = encode ts ++ rest; output = [] })
          text_buf
        ≡ some d)
      × (d.s.output ≡ expand ts [])
      × (d.s.input ≡ rest)
unfolding decode
decode-encode fuel ts rest text_buf v b c =
    let size = length (expand ts []) in
    let header =
      0x10
      + size % 2 ^ 8 * 2 ^ 8
      + size / 2 ^ 8 % 2 ^ 8 * 2 ^ 16
      + size / 2 ^ 16 % 2 ^ 8 * 2 ^ 24 in
    let total : header / 2 ^ 8 ≡ size = omega arith in
    loop-expand fuel (header / 2 ^ 8) 0 ts _ [] rest v
      (record {
        holds = record {
          small = omega arith;
          seen = λ j h. absurd (omega arith);
          counted = refl;
          written = refl;
        };
        slots = omega arith;
        bits = λ p. absurd (omega arith);
        input = refl;
      })
      total (omega (arith, total)) c
