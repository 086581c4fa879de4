-- ===== src/Printer.antt =====
-- The printer of instructions: `disassembler::get_str` of Core/Disassembler.h and the text tables of
-- Core/Disassembler.cpp.
pub mod Formats
pub mod Directive
pub mod Print
pub mod Tokens
pub mod Spelling
pub mod Pieces
pub mod Refine
pub mod Hex
pub mod Total
mod Tests
use ndse_core.Base.{ℕ, zero, suc, ◌+◌, ◌/◌, ◌%◌, ◌^◌, ◌==◌, Bool, not, Option, none, some}
use ndse_core.Base.{List, [], ◌∷◌, if◌then◌else◌, switch, ltb, bit, get_or, length}
use ndse_core.Disassembler.{Context, Condition, Shift, AddressingMode, ExtendMode}
use ndse_core.Printer.Formats.{codes, strings}

-- `CONDITION::strings`; VS prints as VC does.
abbrev pub condition_text : Condition → List ℕ
condition_text Condition.eq = codes "eq"
condition_text Condition.ne = codes "ne"
condition_text Condition.cs = codes "cs"
condition_text Condition.cc = codes "cc"
condition_text Condition.mi = codes "mi"
condition_text Condition.pl = codes "pl"
condition_text Condition.vs = codes "vc"
condition_text Condition.vc = codes "vc"
condition_text Condition.hi = codes "hi"
condition_text Condition.ls = codes "ls"
condition_text Condition.ge = codes "ge"
condition_text Condition.lt = codes "lt"
condition_text Condition.gt = codes "gt"
condition_text Condition.le = codes "le"
condition_text Condition.al = []
condition_text Condition.nv = codes "nv"

-- `SHIFT::strings`
abbrev pub shift_text : Shift → List ℕ
shift_text Shift.lsl = codes "lsl"
shift_text Shift.lsr = codes "lsr"
shift_text Shift.asr = codes "asr"
shift_text Shift.ror = codes "ror"
shift_text Shift.rrx = codes "rrx"

-- `ADDRESSING_MODE::strings`
abbrev pub addressing_text : AddressingMode → List ℕ
addressing_text AddressingMode.da = codes "da"
addressing_text AddressingMode.ia = codes "ia"
addressing_text AddressingMode.db = codes "db"
addressing_text AddressingMode.ib = codes "ib"

-- `EXTEND_MODE::strings`
abbrev pub extend_text : ExtendMode → List ℕ
extend_text ExtendMode.invalid = []
extend_text ExtendMode.h = codes "h"
extend_text ExtendMode.sb = codes "sb"
extend_text ExtendMode.sh = codes "sh"

-- `SR_MASK::strings`
abbrev pub mask_texts : List (List ℕ)
mask_texts =
    []
    ∷ codes "c"
    ∷ codes "x"
    ∷ codes "xc"
    ∷ codes "s"
    ∷ codes "sc"
    ∷ codes "sx"
    ∷ codes "sxc"
    ∷ codes "f"
    ∷ codes "fc"
    ∷ codes "fx"
    ∷ codes "fxc"
    ∷ codes "fs"
    ∷ codes "fsc"
    ∷ codes "fsx"
    ∷ codes "fsxc"
    ∷ []

-- The table `ints` of `cat_i16`.
abbrev pub ints : List (List ℕ)
ints =
    codes "0"
    ∷ codes "1"
    ∷ codes "2"
    ∷ codes "3"
    ∷ codes "4"
    ∷ codes "5"
    ∷ codes "6"
    ∷ codes "7"
    ∷ codes "8"
    ∷ codes "9"
    ∷ codes "10"
    ∷ codes "11"
    ∷ codes "12"
    ∷ codes "13"
    ∷ codes "14"
    ∷ codes "15"
    ∷ []

-- What stands in the buffer, the last character first: a write adds one, `d--` takes one off.
-- `cat(const char*)`
unfoldable pub cat : List ℕ → List ℕ → List ℕ
cat [] out = out
cat (x ∷ text) out = cat text (x ∷ out)

-- An entry of a table of sixteen texts; `none` is a read past its end.
unfoldable pub cat_entry : List (List ℕ) → ℕ → List ℕ → Option (List ℕ)
cat_entry table i out = if ltb i 16 then some (cat (get_or table i []) out) else none

abbrev pub cat_i16 : ℕ → List ℕ → Option (List ℕ)
cat_i16 = cat_entry ints

-- `d--`
unfoldable pub step_back : List ℕ → Option (List ℕ)
step_back [] = none
step_back (_ ∷ out) = some out

-- `cat_nibble_unchecked` on a number below 16: the table `nibbles`.
abbrev pub nibbles : List ℕ
nibbles = codes "0123456789ABCDEF"

-- `cat_nibble`
unfoldable pub cat_nibble : ℕ → List ℕ → List ℕ
cat_nibble n out = get_or nibbles (n % 2 ^ 4) 0 ∷ out

unfoldable pub cat_hex8 : ℕ → List ℕ → List ℕ
cat_hex8 val out =
    let high =
      cat_nibble (val / 2 ^ 16)
        (cat_nibble (val / 2 ^ 20) (cat_nibble (val / 2 ^ 24) (cat_nibble (val / 2 ^ 28) out))) in
    cat_nibble val
      (cat_nibble (val / 2 ^ 4) (cat_nibble (val / 2 ^ 8) (cat_nibble (val / 2 ^ 12) high)))

-- `cat_hex` recurses on what is left of the number: eight times for 32 bits.
unfoldable pub cat_hex_fuel : ℕ → ℕ → List ℕ → List ℕ
cat_hex_fuel zero val out = out
cat_hex_fuel (suc n) val out =
    let nval = val / 2 ^ 4 in
    let rest = cat_hex_fuel n nval out in cat_nibble val (if nval == 0 then out else rest)

abbrev pub cat_hex : ℕ → List ℕ → List ℕ
cat_hex = cat_hex_fuel 8
