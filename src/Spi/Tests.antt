-- ===== src/Spi/Tests.antt =====
-- A test of the touchscreen, and an instance of the theorem about it.
use ndse_core.Base.{ℕ, ◌+◌, ◌*◌, ◌/◌, ◌^◌, ◌≡◌, refl, arith, inl, [], ◌∷◌}
use ndse_core.Spi.{Spi, touch_setxy, set_spidat, take_byte, touchscreen, sample}
use ndse_core.Spi.Touch.{exchange, exchange-touch_setxy}

-- The touchscreen's turn on the bus.
abbrev idle : Spi
idle = record {
  spicnt = 0x8200;
  spidata = 0;
  spidatanum = 0;
  spi_in = 0 ∷ 0 ∷ 0 ∷ 0 ∷ [];
  tx = 100;
  ty = 50;
  dtx = 0;
  dty = 0;
  breaks = 0;
}

-- Command 0xD0 asks for the difference in X, which is one here.
difference_read : (exchange (0xD0 ∷ 0 ∷ 0 ∷ []) (touch_setxy 101 50 idle)).0 ≡ 0 ∷ 0 ∷ 8 ∷ []
unfolding touch_setxy set_spidat take_byte touchscreen sample
difference_read = refl

exchange-touch_setxy_example :
    (h : ℕ) × (l : ℕ) × (t : Spi) × (exchange (0xD4 ∷ 0 ∷ 0 ∷ []) (touch_setxy 0x123 0x45 idle)
      ≡ (0 ∷ h ∷ l ∷ [], t))
    × ((h * 2 ^ 8 + l) / 2 ^ 3 ≡ 0x123)
    × (t.breaks ≡ 0)
exchange-touch_setxy_example =
    exchange-touch_setxy 0xD4 5 0 0 0x123 0x45 idle (refl, refl, refl) (inl refl)
      (omega arith, omega arith) refl refl
