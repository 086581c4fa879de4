-- ===== src/Crc/Tests.antt =====
-- The checksum of Core/Util.cpp on concrete messages.
use ndse_core.Base.{ℕ, ◌≡◌, refl, arith, List, [], ◌∷◌}
use ndse_core.Crc.{crc16tab, get_crc16}
use ndse_core.Crc.Bitwise.{crc_message, get_crc16-eq-crc_message}

-- The digits 1 to 9 in ASCII, whose checksum from 0xFFFF is published as 0x4B37.
abbrev digits : List ℕ
digits = 49 ∷ 50 ∷ 51 ∷ 52 ∷ 53 ∷ 54 ∷ 55 ∷ 56 ∷ 57 ∷ []

known_checksum : get_crc16 0xFFFF digits ≡ 0x4B37
unfolding get_crc16 crc16tab
known_checksum = refl

get_crc16-eq-crc_message_example : get_crc16 0xFFFF digits ≡ crc_message 0xFFFF digits
get_crc16-eq-crc_message_example =
    get_crc16-eq-crc_message 0xFFFF digits (omega arith) (omega arith)
