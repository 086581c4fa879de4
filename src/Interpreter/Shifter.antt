-- ===== src/Interpreter/Shifter.antt =====
-- The barrel shifter of Core/HLCore.cpp.
use ndse_core.Base.{ℕ, ◌+◌, ◌-◌, ◌*◌, ◌/◌, ◌%◌, ◌^◌, ◌==◌, if◌then◌else◌, ltb}
use ndse_core.Base.{bit, asr32, rotr32, shl32}
use ndse_core.Disassembler.{Shift}

-- `x & (1 << k)`
abbrev pub single_bit : (x k : ℕ) → ℕ
single_bit x k = x / 2 ^ k % 2 * 2 ^ k

-- The cases of `shifter`, each on an amount from 1 to 255: the carry and the value.
unfoldable pub shift_by : (x amount : ℕ) → Shift → (cpsr : ℕ) → ℕ × ℕ
shift_by x amount Shift.lsl cpsr =
    if ltb amount 32
    then (single_bit x (32 - amount), shl32 x amount)
    else if amount == 32
    then (x % 2, 0)
    else (0, 0)
shift_by x amount Shift.lsr cpsr =
    if ltb amount 32
    then (single_bit x (amount - 1), x / 2 ^ amount)
    else if amount == 32
    then (single_bit x 31, 0)
    else (0, 0)
shift_by x amount Shift.asr cpsr =
    if ltb amount 32
    then (single_bit x (amount - 1), asr32 x amount)
    else if bit x 31
    then (1, 0xFFFFFFFF)
    else (0, 0)
shift_by x amount Shift.ror cpsr =
    let k = amount % 32 in
    if k == 0 then (single_bit x 31, x) else (single_bit x (k - 1), rotr32 x k)
shift_by x amount Shift.rrx cpsr = (x % 2, x / 2 + cpsr / 2 ^ 29 % 2 * 2 ^ 31)

-- `shifter`: the carry and what `imm` becomes.
unfoldable pub shifter : (imm amount : ℕ) → Shift → (cpsr : ℕ) → ℕ × ℕ
shifter imm amount op cpsr =
    let k = amount % 2 ^ 8 in if k == 0 then (single_bit cpsr 29, imm) else shift_by imm k op cpsr
