-- ===== src/Spi.antt =====
-- The SPI bus of the ARM7 with the touchscreen behind it (`REGISTERS7_1` of Core/IORegs.cpp).
pub mod Touch
mod Tests
use ndse_core.Base.{ℕ, ◌+◌, ◌*◌, ◌/◌, ◌%◌, ◌^◌, ◌==◌, Bool, true, false, not, if◌then◌else◌, ltb}
use ndse_core.Base.{u32, sub32, bit, field, switch, List, [], ◌∷◌, get_or, set}

-- The fields of `REGISTERS7_1` for the bus, and how often `DebugBreak_` stopped the program. The signed
-- coordinates are words; `spi_in` has four entries.
pub record Spi : Type 0 where
  pub spicnt : ℕ
  pub spidata : ℕ
  pub spidatanum : ℕ
  pub spi_in : List ℕ
  pub tx : ℕ
  pub ty : ℕ
  pub dtx : ℕ
  pub dty : ℕ
  pub breaks : ℕ

unfoldable pub touch_setxy : (x y : ℕ) → Spi → Spi
touch_setxy x y s = record s { dtx = sub32 x s.tx; dty = sub32 y s.ty; tx = x; ty = y }

unfoldable pub set_spicnt : ℕ → Spi → Spi
set_spicnt value s = record s { spicnt = value % 2 ^ 16 }

-- The start of `set_spidat`: a byte with bit 7 starts a command.
unfoldable pub take_byte : ℕ → Spi → Spi
take_byte value s =
    if bit value 7
    then record s { spidatanum = 1; spi_in = set s.spi_in 0 value }
    else if ltb s.spidatanum 4
    then record s { spidatanum = s.spidatanum + 1; spi_in = set s.spi_in s.spidatanum value }
    else record s { spidatanum = u32 (s.spidatanum + 1) }

abbrev pub stop_if : Bool → Spi → Spi
stop_if b s = if b then record s { breaks = s.breaks + 1 } else s

-- The switch on the channel: `resbyte` and what the reading changes.
unfoldable pub sample : (chn : ℕ) → (differential : Bool) → Spi → ℕ × Spi
sample chn differential s =
    let last = s.spidatanum == 3 in
    switch chn
      ((0, (0x2F8, stop_if differential s))
        ∷ (7, (0x384, stop_if differential s))
        ∷ (
          1,
          if differential
              then (u32 (s.dty * 0xE) % 2 ^ 12, if last then record s { dty = 0 } else s)
              else (s.ty, s),
        )
        ∷ (5, if differential then (s.dtx, if last then record s { dtx = 0 } else s) else (s.tx, s))
        ∷ [])
      (0, s)

-- The high bits with the second byte, the low bits with the third.
unfoldable pub touchscreen : Spi → Spi
touchscreen s =
    let first = get_or s.spi_in 0 0 in
    let read = sample (field first 4 3) (not (bit first 2)) s in
    record read.1 {
      spidata =
          switch read.1.spidatanum ((2, read.0 / 2 ^ 5) ∷ (3, read.0 * 2 ^ 3 % 2 ^ 8) ∷ [])
            read.1.spidata;
    }

unfoldable pub set_spidat : ℕ → Spi → Spi
set_spidat value s0 =
    let s = take_byte value (record s0 { spidata = 0 }) in
    if field s.spicnt 8 2 == 2 then touchscreen s else s
