-- ===== src/Spi/Touch.antt =====
-- A conversation with the touchscreen (Core/IORegs.cpp).
use ndse_core.Base.{ℕ, ◌+◌, ◌*◌, ◌/◌, ◌%◌, ◌^◌, ◌<◌, ◌≡◌, ◌⊎◌, arith, refl, ap, ◌∙◌, inl, inr}
use ndse_core.Base.{◌==◌, if◌then◌else◌, true, false, not, ltb, bit, field, switch}
use ndse_core.Base.{List, [], ◌∷◌, length, get_or, set, get_or-set_self, get_or-set_ne}
use ndse_core.Spi.{Spi, touch_setxy, take_byte, sample, touchscreen, set_spidat}

-- Every byte written, and what the data register holds after it.
abbrev pub exchange : List ℕ → Spi → List ℕ × Spi
exchange [] s = ([], s)
exchange (value ∷ values) s =
    let s' = set_spidat value s in let rest = exchange values s' in (s'.spidata ∷ rest.0, rest.1)

-- A command that asks for one coordinate, not for a difference.
abbrev pub Asks : (command chn : ℕ) → Type 0
Asks command chn = (bit command 7 ≡ true) × (field command 4 3 ≡ chn) × (bit command 2 ≡ true)

-- In the middle of the command `command`, with `n` bytes taken.
pub record Asked (command n : ℕ) (s : Spi) : Type 0 where
  pub chosen : field s.spicnt 8 2 ≡ 2
  pub taken : s.spidatanum ≡ n
  pub first : get_or s.spi_in 0 0 ≡ command

-- The coordinate of a channel.
abbrev pub coordinate : ℕ → Spi → ℕ
coordinate chn s = if chn == 5 then s.tx else s.ty

sample-coordinate :
    (chn : ℕ) (s : Spi) → (chn ≡ 5) ⊎ (chn ≡ 1) → sample chn false s ≡ (coordinate chn s, s)
unfolding sample
sample-coordinate chn s (inl e) = rw e refl
sample-coordinate chn s (inr e) = rw e refl

abbrev answer : (n value : ℕ) → ℕ
answer n value = switch n ((2, value / 2 ^ 5) ∷ (3, value * 2 ^ 3 % 2 ^ 8) ∷ []) 0

touchscreen-Asked :
    (command chn n : ℕ) (s : Spi)
    → Asks command chn
    → (chn ≡ 5) ⊎ (chn ≡ 1)
    → Asked command n s
    → s.spidata ≡ 0
    → touchscreen s ≡ record s { spidata = answer n (coordinate chn s) }
unfolding touchscreen
touchscreen-Asked command chn n s a c v z =
    let finish : ℕ × Spi → Spi = λ read. record read.1 {
      spidata =
          switch read.1.spidatanum ((2, read.0 / 2 ^ 5) ∷ (3, read.0 * 2 ^ 3 % 2 ^ 8) ∷ [])
            read.1.spidata;
    } in
    ap (λ f. finish (sample (field f 4 3) (not (bit f 2)) s)) v.first
    ∙ ap (λ k. finish (sample k (not (bit command 2)) s)) a.1
    ∙ ap (λ b. finish (sample chn (not b) s)) a.2
    ∙ ap finish (sample-coordinate chn s c)
    ∙ ap
        (λ k. record s {
          spidata =
              switch k ((2, coordinate chn s / 2 ^ 5) ∷ (3, coordinate chn s * 2 ^ 3 % 2 ^ 8) ∷ [])
                s.spidata;
        })
        v.taken
    ∙ ap
        (λ k. record s {
          spidata =
              switch n ((2, coordinate chn s / 2 ^ 5) ∷ (3, coordinate chn s * 2 ^ 3 % 2 ^ 8) ∷ [])
                k;
        })
        z

-- The state after a byte, of which `n` are taken then.
abbrev answered : (chn n : ℕ) (spi_in : List ℕ) → Spi → Spi
answered chn n spi_in s = record s {
  spidata = answer n (coordinate chn s);
  spidatanum = n;
  spi_in = spi_in;
}

-- A byte that leaves the bus in the middle of a command, on the touchscreen.
set_spidat-touchscreen :
    (command chn n value : ℕ) (spi_in : List ℕ) (s : Spi)
    → Asks command chn
    → (chn ≡ 5) ⊎ (chn ≡ 1)
    → field s.spicnt 8 2 ≡ 2
    → get_or spi_in 0 0 ≡ command
    → take_byte value (record s { spidata = 0 })
      ≡ record s { spidata = 0; spidatanum = n; spi_in = spi_in }
    → set_spidat value s ≡ answered chn n spi_in s
unfolding set_spidat
set_spidat-touchscreen command chn n value spi_in s a c chosen first e =
    let t : Spi = record s { spidata = 0; spidatanum = n; spi_in = spi_in } in
    ap (λ k. if field k.spicnt 8 2 == 2 then touchscreen k else k) e
    ∙ ap (λ k. if k == 2 then touchscreen t else t) chosen
    ∙ touchscreen-Asked command chn n t a c
        (record { chosen = chosen; taken = refl; first = first }) refl

command_byte :
    (command chn : ℕ) (s : Spi)
    → Asks command chn
    → (chn ≡ 5) ⊎ (chn ≡ 1)
    → field s.spicnt 8 2 ≡ 2
    → length s.spi_in ≡ 4
    → set_spidat command s ≡ answered chn 1 (set s.spi_in 0 command) s
unfolding take_byte
command_byte command chn s a c chosen l =
    set_spidat-touchscreen command chn 1 command (set s.spi_in 0 command) s a c chosen
      (get_or-set_self s.spi_in 0 command 0 (omega (arith, l))) (rw a.0 refl)

next_byte :
    (command chn n value : ℕ) (s : Spi)
    → Asks command chn
    → (chn ≡ 5) ⊎ (chn ≡ 1)
    → Asked command n s
    → 0 < n
    → n < 4
    → value < 2 ^ 7
    → set_spidat value s ≡ answered chn (n + 1) (set s.spi_in n value) s
unfolding take_byte
next_byte command chn n value s a c v pos lt small =
    let start : Spi = record s { spidata = 0 } in
    let no_command : bit value 7 ≡ false = ground arith in
    let room : ltb n 4 ≡ true = ground arith in
    let taken : take_byte value start
        ≡ record s { spidata = 0; spidatanum = n + 1; spi_in = set s.spi_in n value } =
      rw (no_command, v.taken, room) refl in
    set_spidat-touchscreen command chn (n + 1) value (set s.spi_in n value) s a c v.chosen
      (get_or-set_ne s.spi_in n 0 value 0 (λ e. absurd (omega arith)) ∙ v.first) taken

-- On a bus that the touchscreen has, a command that asks for X (channel 5) or for Y (channel 1) and two
-- more bytes read back the coordinate last set, its bits split over the two, and do not stop.
pub exchange-touch_setxy :
    (command chn b1 b2 x y : ℕ) (s : Spi)
    → Asks command chn
    → (chn ≡ 5) ⊎ (chn ≡ 1)
    → (b1 < 2 ^ 7) × (b2 < 2 ^ 7)
    → field s.spicnt 8 2 ≡ 2
    → length s.spi_in ≡ 4
    → (h : ℕ) × (l : ℕ) × (t : Spi) × (exchange (command ∷ b1 ∷ b2 ∷ []) (touch_setxy x y s)
        ≡ (0 ∷ h ∷ l ∷ [], t))
      × ((h * 2 ^ 8 + l) / 2 ^ 3 ≡ (if chn == 5 then x else y))
      × (t.breaks ≡ s.breaks)
unfolding touch_setxy
exchange-touch_setxy command chn b1 b2 x y s a c small chosen l =
    let s0 = touch_setxy x y s in
    let s1 = answered chn 1 (set s0.spi_in 0 command) s0 in
    let s2 = answered chn 2 (set s1.spi_in 1 b1) s1 in
    let s3 = answered chn 3 (set s2.spi_in 2 b2) s2 in
    let v = coordinate chn s0 in
    let first = get_or-set_self s.spi_in 0 command 0 (omega (arith, l)) in
    let e1 = command_byte command chn s0 a c chosen l in
    let e2 =
      next_byte command chn 1 b1 s1 a c (record { chosen = chosen; taken = refl; first = first })
        (omega arith) (omega arith) small.0 in
    let kept = get_or-set_ne s1.spi_in 1 0 b1 0 (λ e. absurd (omega arith)) ∙ first in
    let e3 =
      next_byte command chn 2 b2 s2 a c (record { chosen = chosen; taken = refl; first = kept })
        (omega arith) (omega arith) small.1 in
    (
      v / 2 ^ 5,
      v * 2 ^ 3 % 2 ^ 8,
      s3,
      ap (λ k. (k.spidata ∷ (exchange (b1 ∷ b2 ∷ []) k).0, (exchange (b1 ∷ b2 ∷ []) k).1)) e1
          ∙ ap (λ k. (0 ∷ k.spidata ∷ (exchange (b2 ∷ []) k).0, (exchange (b2 ∷ []) k).1)) e2
          ∙ ap (λ k. (0 ∷ v / 2 ^ 5 ∷ k.spidata ∷ [], k)) e3,
      omega arith,
      refl,
    )
