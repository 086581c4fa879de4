-- ===== src/Lz77/Encode.antt =====
-- An encoder for the format that Core/lz77.h reads, and what a message means.
use ndse_core.Base.{
  ℕ, zero, suc, ◌+◌, ◌-◌, ◌*◌, ◌/◌, ◌%◌, ◌^◌, ◌<◌, ◌≤◌, List, [], ◌∷◌, ◌++◌, length,
}
use ndse_core.Base.{get_or}
use ndse_core.Lz77.{Mixin}

-- A byte, or `n` bytes from `j + 1` back.
pub data Token : Type 0 where
  byte : (c : ℕ) → Token
  back : (j n : ℕ) → Token

abbrev pub copy_history : (n j : ℕ) → List ℕ → List ℕ
copy_history zero j h = h
copy_history (suc n) j h = copy_history n j (get_or h j 0 ∷ h)

-- The bytes that a token adds to those before it, last byte first.
abbrev pub expand_token : Token → List ℕ → List ℕ
expand_token (Token.byte c) h = c ∷ h
expand_token (Token.back j n) h = copy_history n j h

abbrev pub expand : List Token → List ℕ → List ℕ
expand [] h = h
expand (t ∷ ts) h = expand ts (expand_token t h)

-- A byte fits eight bits; a reference goes back to a byte that is there and that the window holds.
abbrev pub TokenIsValid : Token → List ℕ → Type 0
TokenIsValid (Token.byte c) h = c < 2 ^ 8
TokenIsValid (Token.back j n) h = (j < length h) × (j < 2 ^ 12) × (3 ≤ n) × (n ≤ 18)

abbrev pub AreValid : List Token → List ℕ → Type 0
AreValid [] h = Unit
AreValid (t ∷ ts) h = TokenIsValid t h × AreValid ts (expand_token t h)

abbrev pub flag_of : Token → ℕ
flag_of (Token.byte c) = 0
flag_of (Token.back j n) = 1

-- The flags of the next `n` tokens, the first in the highest bit.
abbrev pub flag_bits : ℕ → List Token → ℕ
flag_bits zero ts = 0
flag_bits (suc n) [] = 0
flag_bits (suc n) (t ∷ ts) = flag_of t * 2 ^ n + flag_bits n ts

abbrev pub payload : Token → List ℕ
payload (Token.byte c) = c ∷ []
payload (Token.back j n) = ((n - 3) * 2 ^ 4 + j / 2 ^ 8) ∷ j % 2 ^ 8 ∷ []

-- The bytes of the tokens where `k` flags of the current flag byte are still to be used.
abbrev pub encode_tokens : ℕ → List Token → List ℕ
encode_tokens k [] = []
encode_tokens zero (t ∷ ts) = flag_bits 8 (t ∷ ts) ∷ payload t ++ encode_tokens 7 ts
encode_tokens (suc k) (t ∷ ts) = payload t ++ encode_tokens k ts

-- Type 0x10, the size in three bytes, and the tokens.
abbrev pub encode : List Token → List ℕ
encode ts =
    let size = length (expand ts []) in
    0x10 ∷ size % 2 ^ 8 ∷ size / 2 ^ 8 % 2 ^ 8 ∷ size / 2 ^ 16 % 2 ^ 8 ∷ encode_tokens 0 ts

-- A source that is a list of bytes and a sink that keeps what it gets, last byte first.
pub record Tape : Type 0 where
  pub input : List ℕ
  pub output : List ℕ

abbrev pub next_byte : List ℕ → ℕ × List ℕ
next_byte [] = (0, [])
next_byte (c ∷ cs) = (c, cs)

abbrev pub tape : Mixin Tape
tape = record {
  get_header = λ t. t;
  get8 = λ t. ((next_byte t.input).0, record t { input = (next_byte t.input).1 });
  put8 = λ c t. record t { output = c ∷ t.output };
}
