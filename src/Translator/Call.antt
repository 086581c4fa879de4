-- ===== src/Translator/Call.antt =====
-- The arguments on the stack against those that the interpreter's functions are called with
-- (Core/Compiler.cpp, Core/HLCore.cpp).
use ndse_core.Base.{
  ℕ, ◌<◌, ◌≡◌, ◌≢◌, refl, sym, true, Bool, ap, ◌∙◌, arith, Option, none, some, List, [], ◌∷◌,
}
use ndse_core.Base.{get_or, switch, if◌then◌else◌, ltb}
use ndse_core.Disassembler.{Inst, Context, Shift, ExtendMode, extend_mode_of}
use ndse_core.Memory.{Handlers}
use ndse_core.Interpreter.{Core, undefined}
use ndse_core.Interpreter
use ndse_core.Interpreter.Execute.{Function, funcs, cpsr_masks, call, execute}
use ndse_core.Printer.Directive.{directive_of, operand_of, coproc_field_of}
use ndse_core.Printer.Formats.{codes, strings}
use ndse_core.Translator.Functions.{instruction_of, funcs-instruction_of}
use ndse_core.Translator.{
  shift_number, extend_number, push, push_register, push_coproc, push_directive, push_percent,
  push_loop, push_args,
}

-- The enumeration that a number on the stack is.
abbrev pub shift_at : ℕ → Shift
shift_at x =
    switch x ((0, Shift.lsl) ∷ (1, Shift.lsr) ∷ (2, Shift.asr) ∷ (3, Shift.ror) ∷ []) Shift.rrx

shift_at-number : (s : Shift) → shift_at (shift_number s) ≡ s
shift_at-number Shift.lsl = refl
shift_at-number Shift.lsr = refl
shift_at-number Shift.asr = refl
shift_at-number Shift.ror = refl
shift_at-number Shift.rrx = refl

extend_mode_of-number : (e : ExtendMode) → extend_mode_of (extend_number e) ≡ e
extend_mode_of-number ExtendMode.invalid = refl
extend_mode_of-number ExtendMode.h = refl
extend_mode_of-number ExtendMode.sb = refl
extend_mode_of-number ExtendMode.sh = refl

-- A call by the host's convention: the first argument is on top of the stack. A function takes as
-- many arguments as Core/HLCore.cpp declares for it.
module _ {D : Type 0} (h : Handlers D) where
  unfoldable pub call_stack : Function → List ℕ → Core D → Core D
  call_stack Function.str_ip (flags ∷ imm ∷ rn ∷ rd ∷ []) c = Interpreter.str_ip h flags imm rn rd c
  call_stack Function.ldr_ip (flags ∷ imm ∷ rn ∷ rd ∷ []) c = Interpreter.ldr_ip h flags imm rn rd c
  call_stack Function.str_ipw (flags ∷ imm ∷ rn ∷ rd ∷ []) c =
      Interpreter.str_ipw h flags imm rn rd c
  call_stack Function.ldr_ipw (flags ∷ imm ∷ rn ∷ rd ∷ []) c =
      Interpreter.ldr_ipw h flags imm rn rd c
  call_stack Function.strb_ip (flags ∷ imm ∷ rn ∷ rd ∷ []) c =
      Interpreter.strb_ip h flags imm rn rd c
  call_stack Function.ldrb_ip (flags ∷ imm ∷ rn ∷ rd ∷ []) c =
      Interpreter.ldrb_ip h flags imm rn rd c
  call_stack Function.strx_ip (flags ∷ imm ∷ rn ∷ rd ∷ mode ∷ []) c =
      Interpreter.strx_ip h flags imm rn rd (extend_mode_of mode) c
  call_stack Function.ldrx_ip (flags ∷ imm ∷ rn ∷ rd ∷ mode ∷ []) c =
      Interpreter.ldrx_ip h flags imm rn rd (extend_mode_of mode) c
  call_stack Function.add_i (flags ∷ imm ∷ rn ∷ rd ∷ []) c = Interpreter.add_i flags imm rn rd c
  call_stack Function.orr_i (flags ∷ imm ∷ rn ∷ rd ∷ []) c = Interpreter.orr_i flags imm rn rd c
  call_stack Function.mov_i (flags ∷ imm ∷ rd ∷ []) c = Interpreter.mov_i flags imm rd c
  call_stack Function.mov_r (flags ∷ imm ∷ shift ∷ rm ∷ rd ∷ []) c =
      Interpreter.mov_r flags imm (shift_at shift) rm rd c
  call_stack Function.msr_cpsr_i (flags ∷ imm ∷ mask ∷ []) c =
      Interpreter.msr_cpsr_i flags imm mask c
  call_stack Function.msr_cpsr_r (flags ∷ rm ∷ mask ∷ []) c = Interpreter.msr_cpsr_r flags rm mask c
  call_stack Function.mcr (flags ∷ op2 ∷ rm ∷ rn ∷ rd ∷ op1 ∷ num ∷ []) c =
      Interpreter.mcr flags op2 rm rn rd op1 num c
  call_stack _ stack c = undefined c

-- What the loop does behind `%F`, the test of the table's size being `b`.
abbrev behind_mask : ℕ → List ℕ → Context → Bool → Option (List ℕ)
behind_mask fuel rest i b = elim (if b then push rest (get_or cpsr_masks i.rn 0) [] else none) [
  | none ↦ none
  | some next ↦ push_loop fuel next.0 i next.1
]

-- What is pushed for the instruction of a function are the arguments that `call` takes from the
-- context.
module _ {D : Type 0} (h : Handlers D) where
  abbrev IsCalled : Function → Context → Core D → Type 0
  IsCalled f i c =
      let i' : Context = record i { instruction = instruction_of f } in
      (args : List ℕ) × (push_args i' ≡ some args) × (call_stack h f args c ≡ call h f i' c)

  function-IsCalled :
      (f : Function) (i : Context) (c : Core D) → f ≢ Function.stub → i.rn < 16 → IsCalled f i c
  unfolding push_args push_loop push_percent push_directive push_register push_coproc strings
      directive_of operand_of coproc_field_of call_stack call
  function-IsCalled Function.stub i c n v = absurd (n refl)
  function-IsCalled Function.str_ip i c n v = (i.flags ∷ i.imm ∷ i.rn ∷ i.rd ∷ [], refl, refl)
  function-IsCalled Function.ldr_ip i c n v = (i.flags ∷ i.imm ∷ i.rn ∷ i.rd ∷ [], refl, refl)
  function-IsCalled Function.str_ipw i c n v = (i.flags ∷ i.imm ∷ i.rn ∷ i.rd ∷ [], refl, refl)
  function-IsCalled Function.ldr_ipw i c n v = (i.flags ∷ i.imm ∷ i.rn ∷ i.rd ∷ [], refl, refl)
  function-IsCalled Function.strb_ip i c n v = (i.flags ∷ i.imm ∷ i.rn ∷ i.rd ∷ [], refl, refl)
  function-IsCalled Function.ldrb_ip i c n v = (i.flags ∷ i.imm ∷ i.rn ∷ i.rd ∷ [], refl, refl)
  function-IsCalled Function.strx_ip i c n v = (
    i.flags ∷ i.imm ∷ i.rn ∷ i.rd ∷ extend_number i.extend_mode ∷ [],
    refl,
    ap (λ e. Interpreter.strx_ip h i.flags i.imm i.rn i.rd e c)
        (extend_mode_of-number i.extend_mode),
  )
  function-IsCalled Function.ldrx_ip i c n v = (
    i.flags ∷ i.imm ∷ i.rn ∷ i.rd ∷ extend_number i.extend_mode ∷ [],
    refl,
    ap (λ e. Interpreter.ldrx_ip h i.flags i.imm i.rn i.rd e c)
        (extend_mode_of-number i.extend_mode),
  )
  function-IsCalled Function.add_i i c n v = (i.flags ∷ i.imm ∷ i.rn ∷ i.rd ∷ [], refl, refl)
  function-IsCalled Function.orr_i i c n v = (i.flags ∷ i.imm ∷ i.rn ∷ i.rd ∷ [], refl, refl)
  function-IsCalled Function.mov_i i c n v = (i.flags ∷ i.imm ∷ i.rd ∷ [], refl, refl)
  function-IsCalled Function.mov_r i c n v = (
    i.flags ∷ i.imm ∷ shift_number i.shift ∷ i.rm ∷ i.rd ∷ [],
    refl,
    ap (λ s. Interpreter.mov_r i.flags i.imm s i.rm i.rd c) (shift_at-number i.shift),
  )
  function-IsCalled Function.mcr i c n v =
      (i.flags ∷ i.cp_op2 ∷ i.rm ∷ i.rn ∷ i.rd ∷ i.cp_op1 ∷ i.cp_num ∷ [], refl, refl)
  function-IsCalled Function.msr_cpsr_i i c n v =
      let mask = get_or cpsr_masks i.rn 0 in
      let in_table : ltb i.rn 16 ≡ true = ground arith in
      (
        i.flags ∷ i.imm ∷ mask ∷ [],
        ap
            (λ b.
              elim (behind_mask 7 (codes ",#0x%I") (record i { instruction = Inst.msr_cpsr_i }) b) [
                | none ↦ none
                | some stack ↦ some (i.flags ∷ stack)
              ])
            in_table,
        refl,
      )
  function-IsCalled Function.msr_cpsr_r i c n v =
      let mask = get_or cpsr_masks i.rn 0 in
      let in_table : ltb i.rn 16 ≡ true = ground arith in
      (
        i.flags ∷ i.rm ∷ mask ∷ [],
        ap
            (λ b.
              elim (behind_mask 6 (codes ",%Rm") (record i { instruction = Inst.msr_cpsr_r }) b) [
                | none ↦ none
                | some stack ↦ some (i.flags ∷ stack)
              ])
            in_table,
        refl,
      )

  -- For an instruction with a function that does more than stop, and a status mask in the table, the
  -- translator's loop over the text ends with arguments on the stack, and the function called with
  -- them does what `execute` does.
  pub execute-call_stack :
      (i : Context) (c : Core D)
      → funcs i.instruction ≢ Function.stub
      → i.rn < 16
      → (args : List ℕ) × (push_args i ≡ some args)
        × (call_stack h (funcs i.instruction) args c ≡ execute h i c)
  unfolding execute
  execute-call_stack i c n v =
      let f = funcs i.instruction in
      let same = funcs-instruction_of i.instruction n in
      let done = function-IsCalled f i c n v in
      (
        done.0,
        ap (λ k. push_args (record i { instruction = k })) same ∙ done.1,
        done.2 ∙ sym (ap (λ k. call h f (record i { instruction = k }) c) same),
      )
