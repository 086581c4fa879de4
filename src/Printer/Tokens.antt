-- ===== src/Printer/Tokens.antt =====
-- What the formats of Core/Disassembler.cpp mean: a sequence of tokens, each of which stands for a
-- text. The printer is measured against it.
use ndse_core.Base.{ℕ, zero, suc, ◌/◌, ◌%◌, ◌^◌, ◌==◌}
use ndse_core.Base.{none, some, List, [], ◌∷◌, ◌++◌, if◌then◌else◌, bit, get_or, length}
use ndse_core.Disassembler.{Context, Inst}
use ndse_core.Printer.{
  condition_text, shift_text, addressing_text, extend_text, mask_texts, ints, nibbles,
}
use ndse_core.Printer.Directive.{
  Directive, directive_of, Operand, operand_of, CoprocField, coproc_field_of,
}
use ndse_core.Printer.Formats.{codes, strings}

-- A literal character, a field behind `%`, a register behind `%R` or `%CR`, a part behind `%C`.
pub data Token : Type 0 where
  literal : ℕ → Token
  plain : Directive → Token
  register : Operand → Token
  coproc : CoprocField → Token
  coproc_register : Operand → Token

-- The fields of the context that are shown as a register's number.
abbrev pub operand_value : Operand → Context → ℕ
operand_value Operand.rd c = c.rd
operand_value Operand.rn c = c.rn
operand_value Operand.rm c = c.rm
operand_value Operand.rs c = c.rs
operand_value Operand.reg_list c = c.imm

-- The names of the registers whose bits are set in `tmp`, `n` of them from `i` on.
unfoldable pub reg_names : (n i tmp : ℕ) → List (List ℕ)
reg_names zero i tmp = []
reg_names (suc n) i tmp =
    let rest = reg_names n (suc i) (tmp / 2) in
    if tmp % 2 == 1 then (b'r' ∷ get_or ints i []) ∷ rest else rest

-- Texts with a comma between each two.
abbrev pub separated : List (List ℕ) → List ℕ
separated [] = []
separated (x ∷ []) = x
separated (x ∷ y ∷ texts) = x ++ b',' ∷ separated (y ∷ texts)

-- The digits of a number without leading zeros, `n` of them at most.
unfoldable pub hex_digits : (n value : ℕ) → List ℕ
hex_digits zero value = []
hex_digits (suc n) value =
    let high = hex_digits n (value / 16) in
    (if value / 16 == 0 then [] else high) ++ get_or nibbles (value % 16) 0 ∷ []

-- The eight digits of a word.
abbrev pub hex8_digits : ℕ → List ℕ
hex8_digits value =
    get_or nibbles (value / 2 ^ 28 % 16) 0
    ∷ get_or nibbles (value / 2 ^ 24 % 16) 0
    ∷ get_or nibbles (value / 2 ^ 20 % 16) 0
    ∷ get_or nibbles (value / 2 ^ 16 % 16) 0
    ∷ get_or nibbles (value / 2 ^ 12 % 16) 0
    ∷ get_or nibbles (value / 2 ^ 8 % 16) 0
    ∷ get_or nibbles (value / 2 ^ 4 % 16) 0
    ∷ get_or nibbles (value % 16) 0
    ∷ []

abbrev pub prefixed : ℕ → Operand → Context → List ℕ
prefixed x Operand.reg_list c = separated (reg_names 16 0 c.imm)
prefixed x o c = x ∷ get_or ints (operand_value o c) []

abbrev pub plain_text : Directive → Context → List ℕ
plain_text Directive.caret c = if bit c.flags 0 then codes "^" else []
plain_text Directive.minus c = if bit c.flags 1 then [] else codes "-"
plain_text Directive.question c = codes "???"
plain_text Directive.condition c = condition_text c.cond
plain_text Directive.s_flag c = if bit c.flags 0 then codes "s" else []
plain_text Directive.status_mask c = get_or mask_texts c.rn []
plain_text Directive.shift c = shift_text c.shift
plain_text Directive.register c = []
plain_text Directive.addressing c = addressing_text c.addressing_mode
plain_text Directive.extend c = extend_text c.extend_mode
plain_text Directive.hex c = hex_digits 8 c.imm
plain_text Directive.address c = hex8_digits c.imm
plain_text Directive.coproc c = []

abbrev pub coproc_text : CoprocField → Context → List ℕ
coproc_text CoprocField.number c = b'p' ∷ get_or ints c.cp_num []
coproc_text CoprocField.op1 c = get_or ints c.cp_op1 []
coproc_text CoprocField.op2 c = get_or ints c.cp_op2 []
coproc_text CoprocField.register c = []

-- The text that a token stands for.
abbrev pub text : Token → Context → List ℕ
text (Token.literal x) c = x ∷ []
text (Token.plain d) c = plain_text d c
text (Token.register o) c = prefixed b'r' o c
text (Token.coproc f) c = coproc_text f c
text (Token.coproc_register o) c = prefixed b'c' o c

abbrev pub texts : List Token → Context → List ℕ
texts [] c = []
texts (t ∷ ts) c = text t c ++ texts ts c

-- How a format spells a token: its first character and the others.
abbrev pub directive_char : Directive → ℕ
directive_char Directive.caret = b'^'
directive_char Directive.minus = b'-'
directive_char Directive.question = b'?'
directive_char Directive.condition = b'c'
directive_char Directive.s_flag = b's'
directive_char Directive.status_mask = b'F'
directive_char Directive.shift = b'S'
directive_char Directive.register = b'R'
directive_char Directive.addressing = b'M'
directive_char Directive.extend = b'E'
directive_char Directive.hex = b'I'
directive_char Directive.address = b'A'
directive_char Directive.coproc = b'C'

abbrev pub operand_char : Operand → ℕ
operand_char Operand.rd = b'd'
operand_char Operand.rn = b'n'
operand_char Operand.rm = b'm'
operand_char Operand.rs = b's'
operand_char Operand.reg_list = b'L'

abbrev pub coproc_char : CoprocField → ℕ
coproc_char CoprocField.number = b'p'
coproc_char CoprocField.op1 = b'1'
coproc_char CoprocField.op2 = b'2'
coproc_char CoprocField.register = b'R'

abbrev pub spell : Token → ℕ × List ℕ
spell (Token.literal x) = (x, [])
spell (Token.plain d) = (b'%', directive_char d ∷ [])
spell (Token.register o) = (b'%', b'R' ∷ operand_char o ∷ [])
spell (Token.coproc f) = (b'%', b'C' ∷ coproc_char f ∷ [])
spell (Token.coproc_register o) = (b'%', b'C' ∷ b'R' ∷ operand_char o ∷ [])

abbrev pub spell_all : List Token → List ℕ
spell_all [] = []
spell_all (t ∷ ts) = (spell t).0 ∷ (spell t).1 ++ spell_all ts

-- The first tokens of a format and what is left of it; what spells no token gives none.
abbrev Cut : Type 0
Cut = List Token × List ℕ

abbrev register_token : (Operand → Token) → List ℕ → Cut
register_token f [] = ([], [])
register_token f (x ∷ p) = elim (operand_of x) [ none ↦ ([], p) | some o ↦ (f o ∷ [], p) ]

abbrev coproc_token : List ℕ → Cut
coproc_token [] = ([], [])
coproc_token (x ∷ p) = elim (coproc_field_of x) [
  | none ↦ ([], p)
  | some CoprocField.register ↦ register_token Token.coproc_register p
  | some f ↦ (Token.coproc f ∷ [], p)
]

abbrev percent_token : List ℕ → Cut
percent_token [] = ([], [])
percent_token (x ∷ p) = elim (directive_of x) [
  | none ↦ ([], p)
  | some Directive.register ↦ register_token Token.register p
  | some Directive.coproc ↦ coproc_token p
  | some d ↦ (Token.plain d ∷ [], p)
]

unfoldable pub tokenize : ℕ → List ℕ → List Token
tokenize zero fmt = []
tokenize (suc n) [] = []
tokenize (suc n) (x ∷ p) =
    let cut = if x == b'%' then percent_token p else (Token.literal x ∷ [], p) in
    cut.0 ++ tokenize n cut.1

abbrev pub tokens : Inst → List Token
tokens i = let fmt = codes (strings i) in tokenize (length fmt) fmt
