-- ===== src/Lz77/Tests.antt =====
-- Tests of the LZ77 decoder, and an instance of each theorem about it.
use ndse_core.Base.{◌≡◌, refl, arith, List, [], ◌∷◌, ◌++◌, some}
use ndse_core.Lz77.{Decoder, decode}
use ndse_core.Lz77.Encode.{Token, AreValid, Tape, tape, encode}
use ndse_core.Lz77.Roundtrip.{decode-encode}

-- Two bytes, and three from two back, which overlap what they copy.
abbrev message : List Token
message = Token.byte 1 ∷ Token.byte 2 ∷ Token.back 1 3 ∷ []

message-AreValid : AreValid message []
message-AreValid =
    (omega arith, (omega arith, ((omega arith, omega arith, omega arith, omega arith), tt)))

encoded : encode message ≡ 0x10 ∷ 5 ∷ 0 ∷ 0 ∷ 0x20 ∷ 1 ∷ 2 ∷ 0 ∷ 1 ∷ []
encoded = refl

decode-encode_example :
    (d : Decoder Tape) × (decode tape 3
        (record { input = encode message ++ 9 ∷ []; output = [] })
        (λ k. 0)
      ≡ some d)
    × (d.s.output ≡ 1 ∷ 2 ∷ 1 ∷ 2 ∷ 1 ∷ [])
    × (d.s.input ≡ 9 ∷ [])
decode-encode_example =
    decode-encode 3 message (9 ∷ []) (λ k. 0) message-AreValid (omega arith) (omega arith)
