-- ===== src/Printer/Refine.antt =====
-- The one pass of `get_str` (Core/Disassembler.h) against the texts of the format's tokens.
use ndse_core.Base.{ℕ, zero, suc, ◌<◌, ◌≤◌, ◌^◌, ◌==◌, ◌≡◌, ◌≢◌, refl, sym, ap}
use ndse_core.Base.{◌∙◌, arith, Bool, true, false, not, ◌&&◌, none, some, List, [], ◌∷◌}
use ndse_core.Base.{◌++◌, if◌then◌else◌, bit, length}
use ndse_core.Base.{length-append}
use ndse_core.Disassembler.{Context, Inst}
use ndse_core.Printer.{mask_texts, ints, cat}
use ndse_core.Printer.Directive.{
  Directive, directive_of, Operand, operand_of, CoprocField, coproc_field_of,
}
use ndse_core.Printer.Formats.{codes, strings}
use ndse_core.Printer.Print.{
  at, print_operand, decode_reg_text, print_coproc, print_directive, print_percent, print_round,
  print_loop, get_str,
}
use ndse_core.Printer.Tokens.{
  Token, operand_value, prefixed, text, texts, spell, spell_all, tokens, operand_char,
}
use ndse_core.Printer.Spelling.{is_spelled, all_spelled, strings-IsSpelled}
use ndse_core.Printer.Pieces.{
  cat-append, cat-cat, cat-nil, cat_entry-in, cat_hex-digits, cat_hex8-digits, print_list-separated,
}

abbrev pub IsShown : Operand → Context → Type 0
IsShown Operand.reg_list c = c.imm < 2 ^ 16
IsShown o c = operand_value o c < 16

-- What the fields of a context must be for a token to have a text.
abbrev pub IsPrintable : Token → Context → Type 0
IsPrintable (Token.literal x) c = Unit
IsPrintable (Token.plain Directive.status_mask) c = c.rn < 16
IsPrintable (Token.plain d) c = Unit
IsPrintable (Token.register o) c = IsShown o c
IsPrintable (Token.coproc CoprocField.number) c = c.cp_num < 16
IsPrintable (Token.coproc CoprocField.op1) c = c.cp_op1 < 16
IsPrintable (Token.coproc CoprocField.op2) c = c.cp_op2 < 16
IsPrintable (Token.coproc CoprocField.register) c = Unit
IsPrintable (Token.coproc_register o) c = IsShown o c

-- The register at `DecodeReg`, behind its prefix.
register_round :
    (x : ℕ) (o : Operand) (p : List ℕ) (c : Context) (out : List ℕ)
    → IsShown o c
    → decode_reg_text (operand_char o ∷ p) c (x ∷ out) ≡ some (p, cat (prefixed x o c) out)
unfolding decode_reg_text operand_of print_operand cat
register_round x Operand.rd p c out h = ap (at p) (cat_entry-in ints c.rd (x ∷ out) h)
register_round x Operand.rn p c out h = ap (at p) (cat_entry-in ints c.rn (x ∷ out) h)
register_round x Operand.rm p c out h = ap (at p) (cat_entry-in ints c.rm (x ∷ out) h)
register_round x Operand.rs p c out h = ap (at p) (cat_entry-in ints c.rs (x ∷ out) h)
register_round x Operand.reg_list p c out h = ap (at p) (print_list-separated c.imm x out h)

flagged :
    (b : Bool) (x : ℕ) (out : List ℕ)
    → (if b then x ∷ out else out) ≡ cat (if b then x ∷ [] else []) out
unfolding cat
flagged true x out = refl
flagged false x out = refl

unflagged :
    (b : Bool) (x : ℕ) (out : List ℕ)
    → (if b then out else x ∷ out) ≡ cat (if b then [] else x ∷ []) out
unfolding cat
unflagged true x out = refl
unflagged false x out = refl

-- One round of the loop takes the token that the format spells and writes its text.
pub print_round-text :
    (t : Token) (p : List ℕ) (c : Context) (out : List ℕ)
    → is_spelled t ≡ true
    → IsPrintable t c
    → print_round (spell t).0 ((spell t).1 ++ p) c out ≡ some (p, cat (text t c) out)
unfolding print_round print_percent directive_of print_directive print_coproc coproc_field_of cat
print_round-text (Token.literal x) p c out s h = chosen (x == b'%') s
  where
    chosen :
        (b : Bool)
        → not b ≡ true
        → (if b then print_percent p c out else some (p, x ∷ out)) ≡ some (p, x ∷ out)
    chosen false e = refl
    chosen true e = absurd (ground arith)
print_round-text (Token.plain Directive.caret) p c out s h =
    ap (λ t. some (p, t)) (flagged (bit c.flags 0) b'^' out)
print_round-text (Token.plain Directive.minus) p c out s h =
    ap (λ t. some (p, t)) (unflagged (bit c.flags 1) b'-' out)
print_round-text (Token.plain Directive.question) p c out s h = refl
print_round-text (Token.plain Directive.condition) p c out s h = refl
print_round-text (Token.plain Directive.s_flag) p c out s h =
    ap (λ t. some (p, t)) (flagged (bit c.flags 0) b's' out)
print_round-text (Token.plain Directive.status_mask) p c out s h =
    ap (at p) (cat_entry-in mask_texts c.rn out h)
print_round-text (Token.plain Directive.shift) p c out s h = refl
print_round-text (Token.plain Directive.register) p c out s h = absurd (ground arith)
print_round-text (Token.plain Directive.addressing) p c out s h = refl
print_round-text (Token.plain Directive.extend) p c out s h = refl
print_round-text (Token.plain Directive.hex) p c out s h =
    ap (λ t. some (p, t)) (cat_hex-digits 8 c.imm out)
print_round-text (Token.plain Directive.address) p c out s h =
    ap (λ t. some (p, t)) (cat_hex8-digits c.imm out)
print_round-text (Token.plain Directive.coproc) p c out s h = absurd (ground arith)
print_round-text (Token.register o) p c out s h = register_round b'r' o p c out h
print_round-text (Token.coproc CoprocField.number) p c out s h =
    ap (at p) (cat_entry-in ints c.cp_num (b'p' ∷ out) h)
print_round-text (Token.coproc CoprocField.op1) p c out s h =
    ap (at p) (cat_entry-in ints c.cp_op1 out h)
print_round-text (Token.coproc CoprocField.op2) p c out s h =
    ap (at p) (cat_entry-in ints c.cp_op2 out h)
print_round-text (Token.coproc CoprocField.register) p c out s h = absurd (ground arith)
print_round-text (Token.coproc_register o) p c out s h = register_round b'c' o p c out h

abbrev pub AllPrintable : List Token → Context → Type 0
AllPrintable [] c = Unit
AllPrintable (t ∷ ts) c = IsPrintable t c × AllPrintable ts c

pub spelled_both : (a b : Bool) → (a && b) ≡ true → (a ≡ true) × (b ≡ true)
spelled_both true b e = (refl, e)
spelled_both false b e = absurd (ground arith)

-- The loop on the spelling of some tokens writes their texts, with a round for each character at
-- most.
print_loop-texts :
    (fuel : ℕ) (ts : List Token) (c : Context) (out : List ℕ)
    → length (spell_all ts) ≤ fuel
    → all_spelled ts ≡ true
    → AllPrintable ts c
    → print_loop fuel (spell_all ts) c out ≡ some (cat (texts ts c) out)
unfolding print_loop cat
print_loop-texts fuel [] c out l s v = refl
print_loop-texts zero (t ∷ ts) c out l s v = absurd (omega arith)
print_loop-texts (suc fuel) (t ∷ ts) c out l s v =
    let both = spelled_both (is_spelled t) (all_spelled ts) s in
    let shorter = length-append (spell t).1 (spell_all ts) in
    ap (λ r. elim r [ none ↦ none | some next ↦ print_loop fuel next.0 c next.1 ])
      (print_round-text t (spell_all ts) c out both.0 v.0)
    ∙ print_loop-texts fuel ts c (cat (text t c) out) (omega arith) both.1 v.1
    ∙ ap some (sym (cat-append (text t c) (texts ts c) out))

-- `get_str` gives the texts of the tokens of the instruction's format, one after the other, where
-- the fields that the format shows are in range; for every instruction but UMLAL.
pub get_str-texts :
    (c : Context)
    → c.instruction ≢ Inst.umlal
    → AllPrintable (tokens c.instruction) c
    → get_str c ≡ some (texts (tokens c.instruction) c)
unfolding get_str
get_str-texts c n v =
    let fmt = codes (strings c.instruction) in
    let ts = tokens c.instruction in
    let spelled = strings-IsSpelled c.instruction n in
    let size = ap length spelled.0 in
    let done = print_loop-texts (length fmt) ts c [] (omega arith) spelled.1 v in
    ap (λ r. elim r [ none ↦ none | some out ↦ some (cat out []) ])
      (ap (λ p. print_loop (length fmt) p c []) spelled.0 ∙ done)
    ∙ ap some (turned (texts ts c))
  where
    turned : (xs : List ℕ) → cat (cat xs []) [] ≡ xs
    turned xs = cat-cat xs [] [] ∙ cat-nil xs
