-- ===== src/Printer/Total.antt =====
-- Which contexts the printer of Core/Disassembler.h can print.
use ndse_core.Base.{
  ℕ, zero, suc, ◌++◌, length, ◌<◌, ◌^◌, ◌≡◌, ◌≢◌, refl, ap, ◌∙◌, arith, Bool, true, false, ◌||◌,
}
use ndse_core.Base.{none, some, List, [], ◌∷◌}
use ndse_core.Disassembler.{Context, Inst}
use ndse_core.Disassembler.Range.{IsInRange}
use ndse_core.Printer.{cat}
use ndse_core.Printer.Directive.{Directive, Operand, CoprocField, directive_of, operand_of}
use ndse_core.Printer.Formats.{codes, strings}
use ndse_core.Printer.Print.{
  print_loop, print_round, print_percent, print_directive, decode_reg_text, get_str,
}
use ndse_core.Printer.Tokens.{Token, text, texts, spell, spell_all, tokenize, tokens}
use ndse_core.Printer.Spelling.{is_spelled, all_spelled}
use ndse_core.Printer.Pieces.{append_assoc}
use ndse_core.Printer.Refine.{
  IsShown, IsPrintable, AllPrintable, get_str-texts, spelled_both, print_round-text,
}

-- The tokens that show the register list.
abbrev pub is_list : Operand → Bool
is_list Operand.reg_list = true
is_list _ = false

abbrev pub shows_list : Token → Bool
shows_list (Token.register o) = is_list o
shows_list (Token.coproc_register o) = is_list o
shows_list _ = false

abbrev pub any_list : List Token → Bool
any_list [] = false
any_list (t ∷ ts) = shows_list t || any_list ts

IsInRange-IsShown :
    (o : Operand) (c : Context) → IsInRange c → (is_list o ≡ true → c.imm < 2 ^ 16) → IsShown o c
IsInRange-IsShown Operand.rd c v h = v.rd_in
IsInRange-IsShown Operand.rn c v h = v.rn_in
IsInRange-IsShown Operand.rm c v h = v.rm_in
IsInRange-IsShown Operand.rs c v h = v.rs_in
IsInRange-IsShown Operand.reg_list c v h = h refl

IsInRange-IsPrintable :
    (t : Token) (c : Context)
    → IsInRange c
    → (shows_list t ≡ true → c.imm < 2 ^ 16)
    → IsPrintable t c
IsInRange-IsPrintable (Token.literal x) c v h = tt
IsInRange-IsPrintable (Token.plain Directive.status_mask) c v h = v.rn_in
IsInRange-IsPrintable (Token.register o) c v h = IsInRange-IsShown o c v h
IsInRange-IsPrintable (Token.coproc CoprocField.number) c v h = v.cp_num_in
IsInRange-IsPrintable (Token.coproc CoprocField.op1) c v h = v.cp_op1_in
IsInRange-IsPrintable (Token.coproc CoprocField.op2) c v h = omega (arith, v.cp_op2_in)
IsInRange-IsPrintable (Token.coproc CoprocField.register) c v h = tt
IsInRange-IsPrintable (Token.coproc_register o) c v h = IsInRange-IsShown o c v h
IsInRange-IsPrintable (Token.plain d) c v h = tt

IsInRange-AllPrintable :
    (ts : List Token) (c : Context)
    → IsInRange c
    → (any_list ts ≡ true → c.imm < 2 ^ 16)
    → AllPrintable ts c
IsInRange-AllPrintable [] c v h = tt
IsInRange-AllPrintable (t ∷ ts) c v h = (
  IsInRange-IsPrintable t c v (λ e. h (ap (λ b. b || any_list ts) e)),
  IsInRange-AllPrintable ts c v (λ e. h (ap (λ b. shows_list t || b) e ∙ right (shows_list t))),
)
  where
    right : (b : Bool) → (b || true) ≡ true
    right true = refl
    right false = refl

-- Where the loop fails on the end of a format, it fails on the format.
print_loop-runs_on :
    (fuel : ℕ) (ts : List Token) (tail : List ℕ) (c : Context) (out : List ℕ)
    → ((n : ℕ) (o : List ℕ) → print_loop n tail c o ≡ none)
    → all_spelled ts ≡ true
    → AllPrintable ts c
    → print_loop fuel (spell_all ts ++ tail) c out ≡ none
unfolding print_loop
print_loop-runs_on fuel [] tail c out fails s v = fails fuel out
print_loop-runs_on zero (t ∷ ts) tail c out fails s v = refl
print_loop-runs_on (suc fuel) (t ∷ ts) tail c out fails s v =
    let both = spelled_both (is_spelled t) (all_spelled ts) s in
    let rest = spell_all ts ++ tail in
    ap (λ r. elim r [ none ↦ none | some next ↦ print_loop fuel next.0 c next.1 ])
      (ap (λ p. print_round (spell t).0 p c out) (append_assoc (spell t).1 (spell_all ts) tail)
        ∙ print_round-text t rest c out both.0 v.0)
    ∙ print_loop-runs_on fuel ts tail c (cat (text t c) out) fails both.1 v.1

-- A `%R` at the end of a format.
open_register : (c : Context) (n : ℕ) (out : List ℕ) → print_loop n (codes "%R") c out ≡ none
unfolding print_loop print_round print_percent directive_of print_directive decode_reg_text
open_register c zero out = refl
open_register c (suc n) out = refl

umlal_tokens :
    (codes (strings Inst.umlal) ≡ spell_all (tokens Inst.umlal) ++ codes "%R")
    × (all_spelled (tokens Inst.umlal) ≡ true)
unfolding strings tokenize directive_of operand_of
umlal_tokens = (refl, refl)

umlal-IsInRange : (c : Context) → IsInRange c → IsInRange (record c { instruction = Inst.umlal })
umlal-IsInRange c v = ground arith

umlal_printable : (c : Context) → IsInRange c → AllPrintable (tokens Inst.umlal) c
unfolding strings tokenize directive_of operand_of
umlal_printable c v = IsInRange-AllPrintable (tokens Inst.umlal) c v (λ e. absurd (ground arith))

umlal_unprinted :
    (c : Context) → IsInRange c → get_str (record c { instruction = Inst.umlal }) ≡ none
unfolding get_str
umlal_unprinted c v =
    let fmt = codes (strings Inst.umlal) in
    let i : Context = record c { instruction = Inst.umlal } in
    ap (λ r. elim r [ none ↦ none | some out ↦ some (cat out []) ])
      (ap (λ p. print_loop (length fmt) p i []) umlal_tokens.0
        ∙ print_loop-runs_on (length fmt) (tokens Inst.umlal) (codes "%R") i [] (open_register i)
            umlal_tokens.1 (umlal_printable i (umlal-IsInRange c v)))

-- Every instruction but UMLAL with operands in range, and a register list of 16 bits where its
-- format has one, is printed: as the texts of the format's tokens. UMLAL is not: its format ends
-- behind `%R`, and the read goes past its end.
pub get_str_printed :
    (c : Context)
    → IsInRange c
    → (any_list (tokens c.instruction) ≡ true → c.imm < 2 ^ 16)
    → (c.instruction ≢ Inst.umlal → get_str c ≡ some (texts (tokens c.instruction) c))
      × (c.instruction ≡ Inst.umlal → get_str c ≡ none)
get_str_printed c v h = (
  λ n. get_str-texts c n (IsInRange-AllPrintable (tokens c.instruction) c v h),
  λ e. ap (λ i. get_str (record c { instruction = i })) e ∙ umlal_unprinted c v,
)
