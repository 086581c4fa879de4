-- ===== src/Ipc/Link.antt =====
-- The FIFO of one processor with the state bits that the other one sees of it.
use Prim.Native.Nat.{bit_or}
use ndse_core.Base.{ℕ, ◌+◌, ◌%◌, ◌^◌, ◌<◌, ◌≡◌, ◌≢◌, refl, ap, ◌∙◌, sym, arith}
use ndse_core.Base.{List, [], ◌∷◌, ◌++◌, length, field, bit, Option, none, some, true, false}
use ndse_core.Base.{Bool-cases, inl, inr}
use ndse_core.Fifo.{Fifo, empty, full, read}
use ndse_core.Fifo.Refine.{IsValid, contents, write_refines, read_refines, empty-full_iff}
use ndse_core.Ipc.{Cpu, IoRegs, Machine, regs, other, get_fifostate, pop_fifo, push_fifo, flag_fifo}
use ndse_core.Ipc.{get_fifocnt, fire, store_ipcfifosend, transfer_load32, signaled}

get_fifostate-lt : (r : IoRegs) → get_fifostate r < 4
unfolding get_fifostate
get_fifostate-lt r = ground arith

-- `flag_fifo` puts a two-bit state where the other processor looks for it, and `get_fifocnt` shows
-- it there, with the state of the processor's own FIFO below.
pub get_fifocnt-flag_fifo :
    (state : ℕ) (r : IoRegs)
    → state < 4
    → (field (get_fifocnt (flag_fifo state r)) 8 2 ≡ state)
      × (field (get_fifocnt (flag_fifo state r)) 0 2 ≡ get_fifostate r)
unfolding get_fifocnt flag_fifo get_fifostate
get_fifocnt-flag_fifo state r h = (ground arith, ground arith)

-- The FIFO that `cpu` fills is valid, and the other processor's control register shows its state.
pub record IsLinked (cpu : Cpu) (m : Machine) : Type 0 where
  pub valid : IsValid (regs cpu m).ipc_fifo
  pub shown : field (regs (other cpu) m).ipc_fifocnt 8 2 ≡ get_fifostate (regs cpu m)

-- The values that `cpu` sent and the other processor has not read.
abbrev pub pending : Cpu → Machine → List ℕ
pending cpu m = contents (regs cpu m).ipc_fifo

flag_fifo-shown :
    (state : ℕ) (r : IoRegs) → state < 4 → field (flag_fifo state r).ipc_fifocnt 8 2 ≡ state
unfolding flag_fifo
flag_fifo-shown state r h = omega arith

full_of-lt : {f : Fifo} → IsValid f → length (contents f) < 16 → full 16 f ≡ false
full_of-lt {f} v h = ground (arith, empty-full_iff v)

-- With fewer than 16 values pending, a send appends its value, stops nowhere, leaves the link of its
-- direction in order, and signals interrupt 18 to the receiver.
pub send_refines :
    (cpu : Cpu) (v : ℕ) (m : Machine)
    → IsValid (regs cpu m).ipc_fifo
    → length (pending cpu m) < 16
    → let m' = store_ipcfifosend cpu v m in
      IsLinked cpu m'
      × (pending cpu m' ≡ pending cpu m ++ (v ∷ []))
      × (m'.breaks ≡ m.breaks)
      × (signaled (other cpu) m' ≡ bit_or (signaled (other cpu) m) (2 ^ 18))
unfolding store_ipcfifosend push_fifo fire
send_refines Cpu.arm7 v m valid room =
    let (kept, appended) = write_refines v valid room in
    (
      record { valid = kept; shown = flag_fifo-shown _ m.regs9 (get_fifostate-lt _) },
      appended,
      rw (full_of-lt valid room) (omega arith),
      refl,
    )
send_refines Cpu.arm9 v m valid room =
    let (kept, appended) = write_refines v valid room in
    (
      record { valid = kept; shown = flag_fifo-shown _ m.regs7 (get_fifostate-lt _) },
      appended,
      rw (full_of-lt valid room) (omega arith),
      refl,
    )

bit-get_fifostate : (r : IoRegs) → bit (get_fifostate r) 0 ≡ empty 16 r.ipc_fifo
unfolding get_fifostate
bit-get_fifostate r = ground arith

nil_of-length : (xs : List ℕ) → length xs ≡ 0 → xs ≡ []
nil_of-length [] h = refl
nil_of-length (x ∷ xs) h = absurd (omega arith)

empty_of-ne_nil : {f : Fifo} → IsValid f → contents f ≢ [] → empty 16 f ≡ false
empty_of-ne_nil {f} v h = elim (Bool-cases (empty 16 f)) [
  | inl e ↦ absurd (h (nil_of-length (contents f) ((empty-full_iff v).0.0 e)))
  | inr e ↦ e
]

nil_of-empty : {f : Fifo} → IsValid f → empty 16 f ≡ true → contents f ≡ []
nil_of-empty {f} v e = nil_of-length (contents f) ((empty-full_iff v).0.0 e)

empty_of-nil : {f : Fifo} → IsValid f → contents f ≡ [] → empty 16 f ≡ true
empty_of-nil v h = (empty-full_iff v).0.1 (ap length h)

-- The registers after `pop_fifo` has taken a value.
abbrev taken : IoRegs → IoRegs
taken r = record r { ipc_fifo = (read 16 r.ipc_fifo).1 }

true≢false : true ≢ false
true≢false h = cc h

-- How a read changes what is pending and signaled, and what it returns.
pub record Receives (cpu : Cpu) (m : Machine) (result : Option ℕ × Machine) : Type 0 where
  pub value : ℕ
  pub returned : result.0 ≡ some value
  pub oldest : pending cpu m ≡ value ∷ pending cpu result.1
  pub linked : IsLinked cpu result.1
  pub no_break : result.1.breaks ≡ m.breaks
  pub drained : pending cpu result.1 ≡ [] → signaled cpu result.1 ≡ bit_or (signaled cpu m) (2 ^ 17)
  pub undrained : pending cpu result.1 ≢ [] → signaled cpu result.1 ≡ signaled cpu m

-- With a value pending, a read of the transfer register returns the oldest one and removes it; the
-- read that takes the last one signals interrupt 17 to the sender, and any other signals nothing.
pub receive_refines :
    (cpu : Cpu) (addr : ℕ) (m : Machine)
    → addr % 512 ≡ 0
    → IsValid (regs cpu m).ipc_fifo
    → pending cpu m ≢ []
    → Receives cpu m (transfer_load32 (other cpu) addr m)
unfolding transfer_load32 pop_fifo fire
receive_refines Cpu.arm7 addr m aligned valid held =
    let f = m.regs7.ipc_fifo in
    let (kept, oldest) = read_refines valid held in
    let shown = flag_fifo-shown (get_fifostate (taken m.regs7)) m.regs9 (get_fifostate-lt _) in
    elim (Bool-cases (empty 16 (read 16 f).1)) [
      | inl e ↦
          rw (aligned, empty_of-ne_nil valid held, bit-get_fifostate, e)
            (record {
              value = (read 16 f).0;
              returned = refl;
              oldest = oldest;
              linked = record { valid = kept; shown = shown };
              no_break = omega arith;
              drained = λ _. refl;
              undrained = λ ne. absurd (ne (nil_of-empty kept e));
            })
      | inr e ↦
          rw (aligned, empty_of-ne_nil valid held, bit-get_fifostate, e)
            (record {
              value = (read 16 f).0;
              returned = refl;
              oldest = oldest;
              linked = record { valid = kept; shown = shown };
              no_break = omega arith;
              drained = λ z. absurd (true≢false (sym (empty_of-nil kept z) ∙ e));
              undrained = λ _. refl;
            })
    ]
receive_refines Cpu.arm9 addr m aligned valid held =
    let f = m.regs9.ipc_fifo in
    let (kept, oldest) = read_refines valid held in
    let shown = flag_fifo-shown (get_fifostate (taken m.regs9)) m.regs7 (get_fifostate-lt _) in
    elim (Bool-cases (empty 16 (read 16 f).1)) [
      | inl e ↦
          rw (aligned, empty_of-ne_nil valid held, bit-get_fifostate, e)
            (record {
              value = (read 16 f).0;
              returned = refl;
              oldest = oldest;
              linked = record { valid = kept; shown = shown };
              no_break = omega arith;
              drained = λ _. refl;
              undrained = λ ne. absurd (ne (nil_of-empty kept e));
            })
      | inr e ↦
          rw (aligned, empty_of-ne_nil valid held, bit-get_fifostate, e)
            (record {
              value = (read 16 f).0;
              returned = refl;
              oldest = oldest;
              linked = record { valid = kept; shown = shown };
              no_break = omega arith;
              drained = λ z. absurd (true≢false (sym (empty_of-nil kept z) ∙ e));
              undrained = λ _. refl;
            })
    ]

-- With nothing pending, a read of the transfer register stops in the debugger once, returns a value
-- that was never set, and leaves nothing pending.
pub receive_underflow :
    (cpu : Cpu) (addr : ℕ) (m : Machine)
    → addr % 512 ≡ 0
    → IsValid (regs cpu m).ipc_fifo
    → pending cpu m ≡ []
    → let r = transfer_load32 (other cpu) addr m in
      (r.0 ≡ none) × (r.1.breaks ≡ m.breaks + 1) × (pending cpu r.1 ≡ [])
unfolding transfer_load32 pop_fifo fire
receive_underflow Cpu.arm7 addr m aligned valid held =
    rw (aligned, empty_of-nil valid held, bit-get_fifostate, empty_of-nil valid held)
      (refl, refl, held)
receive_underflow Cpu.arm9 addr m aligned valid held =
    rw (aligned, empty_of-nil valid held, bit-get_fifostate, empty_of-nil valid held)
      (refl, refl, held)
