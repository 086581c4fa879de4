-- ===== src/Ipc.antt =====
-- The interprocessor communication of Core/IORegs.cpp: the `ioregs` of both processors, the IPC
-- cases of their register files, the transfer registers that read the other side's FIFO, and
-- `interrupt<T>::fire` of Core/Interrupt.h.
pub mod Link
pub mod Queue
mod Tests
use Prim.Native.Nat.{bit_or}
use ndse_core.Base.{ℕ, ◌+◌, ◌-◌, ◌*◌, ◌/◌, ◌%◌, ◌^◌, ◌==◌, Bool, true, false, Option, none, some}
use ndse_core.Base.{if◌then◌else◌, ltb, bit}
use ndse_core.Fifo.{Fifo, empty, full, write, read}

pub data Cpu : Type 0 where
  arm7 arm9 : Cpu

abbrev pub other : Cpu → Cpu
other Cpu.arm7 = Cpu.arm9
other Cpu.arm9 = Cpu.arm7

-- The private state of `ioregs`, less its mutex and the callbacks.
pub record IoRegs : Type 0 where
  pub ipc : ℕ
  pub ipc_fifocnt : ℕ
  pub ipc_fifo : Fifo

unfoldable pub set_ipc : ℕ → IoRegs → IoRegs
set_ipc remote_ipc r = record r { ipc = r.ipc / 16 * 16 + remote_ipc / 256 % 16 }

unfoldable pub get_ipc : IoRegs → ℕ
get_ipc r = r.ipc

-- Bit 0 tells that the FIFO is empty, bit 1 that it is full.
unfoldable pub get_fifostate : IoRegs → ℕ
get_fifostate r = (if empty 16 r.ipc_fifo then 1 else 0) + (if full 16 r.ipc_fifo then 2 else 0)

-- `false` leaves the caller's variable alone: there is no value.
unfoldable pub pop_fifo : IoRegs → Option ℕ × IoRegs
pop_fifo r =
    if empty 16 r.ipc_fifo
    then (none, r)
    else (some (read 16 r.ipc_fifo).0, record r { ipc_fifo = (read 16 r.ipc_fifo).1 })

-- `ipc_fifocnt & 0xFFFFFFFC | get_fifostate()`
unfoldable pub get_fifocnt : IoRegs → ℕ
get_fifocnt r = r.ipc_fifocnt / 4 * 4 + get_fifostate r

-- An overflow stops in the debugger (the Boolean), and the value is written all the same.
unfoldable pub push_fifo : ℕ → IoRegs → Bool × IoRegs
push_fifo value r = (full 16 r.ipc_fifo, record r { ipc_fifo = write 16 value r.ipc_fifo })

-- `(ipc_fifocnt & 0xFFFFFCFF) | (state << 8)` for a two-bit state.
unfoldable pub flag_fifo : ℕ → IoRegs → IoRegs
flag_fifo state r = record r {
  ipc_fifocnt = r.ipc_fifocnt / 1024 * 1024 + state * 256 + r.ipc_fifocnt % 256;
}

-- Both register files, `interrupt<T>::signaled` of both processors, the register DISPSTAT, and how
-- often `DebugBreak_` stopped the program, which then goes on.
pub record Machine : Type 0 where
  pub regs7 : IoRegs
  pub regs9 : IoRegs
  pub signaled7 : ℕ
  pub signaled9 : ℕ
  pub dispstat : ℕ
  pub breaks : ℕ

abbrev pub regs : Cpu → Machine → IoRegs
regs Cpu.arm7 m = m.regs7
regs Cpu.arm9 m = m.regs9

abbrev pub with_regs : Cpu → IoRegs → Machine → Machine
with_regs Cpu.arm7 r m = record m { regs7 = r }
with_regs Cpu.arm9 r m = record m { regs9 = r }

abbrev pub debug_break : Bool → Machine → Machine
debug_break stop m = record m { breaks = m.breaks + (if stop then 1 else 0) }

abbrev pub signaled : Cpu → Machine → ℕ
signaled Cpu.arm7 m = m.signaled7
signaled Cpu.arm9 m = m.signaled9

abbrev signal : Cpu → ℕ → Machine → Machine
signal Cpu.arm7 mask m = record m { signaled7 = bit_or m.signaled7 mask }
signal Cpu.arm9 mask m = record m { signaled9 = bit_or m.signaled9 mask }

-- `interrupt<T>::fire`; interrupt 0 (vblank) also sets the flag in DISPSTAT.
unfoldable pub fire : Cpu → ℕ → Machine → Machine
fire cpu n m =
    let m' = signal cpu (2 ^ n) m in
    if n == 0 then record m' { dispstat = bit_or m'.dispstat 1 } else m'

-- Case 0x180 of `REGISTERS9_1::store32` and `REGISTERS7_1::store32`.
unfoldable pub store_ipcsync : Cpu → ℕ → Machine → Machine
store_ipcsync cpu value m = with_regs (other cpu) (set_ipc value (regs (other cpu) m)) m

-- Case 0x188 of both: push, tell the other side the state, and interrupt it.
unfoldable pub store_ipcfifosend : Cpu → ℕ → Machine → Machine
store_ipcfifosend cpu value m =
    let pushed = push_fifo value (regs cpu m) in
    let m1 = debug_break pushed.0 (with_regs cpu pushed.1 m) in
    let state = get_fifostate (regs cpu m1) in
    let m2 = with_regs (other cpu) (flag_fifo state (regs (other cpu) m1)) m1 in
    fire (other cpu) 18 m2

abbrev is_none : Option ℕ → Bool
is_none none = true
is_none (some _) = false

-- `TRANSFER9::load32` and `TRANSFER7::load32`. On an underflow the value returned was never set.
unfoldable pub transfer_load32 : Cpu → ℕ → Machine → Option ℕ × Machine
transfer_load32 cpu addr m =
    let popped = pop_fifo (regs (other cpu) m) in
    let m1 = debug_break (is_none popped.0) (with_regs (other cpu) popped.1 m) in
    let state = get_fifostate (regs (other cpu) m1) in
    let m2 = with_regs cpu (flag_fifo state (regs cpu m1)) m1 in
    if addr % 512 == 0
    then (popped.0, if bit state 0 then fire (other cpu) 17 m2 else m2)
    else (some 0, debug_break true m)

-- The narrower loads pick their part of the word at the aligned address; `load16s` extends its sign.
unfoldable pub transfer_load16u : Cpu → ℕ → Machine → Option ℕ × Machine
transfer_load16u cpu addr m =
    let r = transfer_load32 cpu (addr / 4 * 4) m in
    (elim r.0 [ none ↦ none | some w ↦ some (w / 2 ^ (16 * (addr / 2 % 2)) % 2 ^ 16) ], r.1)

unfoldable pub transfer_load16s : Cpu → ℕ → Machine → Option ℕ × Machine
transfer_load16s cpu addr m =
    let r = transfer_load16u cpu addr m in
    (
      elim r.0 [ none ↦ none | some h ↦ some (if ltb h (2 ^ 15) then h else h + 2 ^ 32 - 2 ^ 16) ],
      r.1,
    )

unfoldable pub transfer_load8u : Cpu → ℕ → Machine → Option ℕ × Machine
transfer_load8u cpu addr m =
    let r = transfer_load32 cpu (addr / 4 * 4) m in
    (elim r.0 [ none ↦ none | some w ↦ some (w / 2 ^ (8 * (addr % 4)) % 2 ^ 8) ], r.1)
