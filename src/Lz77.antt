-- ===== src/Lz77.antt =====
-- The LZ77 decoder of Core/lz77.h, over the source and the sink that its parameter `mixin` stands for.
pub mod Encode
pub mod Window
pub mod Flags
pub mod Roundtrip
mod Tests
use ndse_core.Base.{ℕ, zero, suc, ◌+◌, ◌-◌, ◌*◌, ◌/◌, ◌%◌, ◌^◌, ◌==◌, if◌then◌else◌, ltb, u32, bit}
use ndse_core.Base.{Option, none, some}

-- What the decoder uses of `mixin`. `get8` gives an `unsigned char`.
pub record Mixin (S : Type 0) : Type 0 where
  pub get_header : S → S
  pub get8 : S → ℕ × S
  pub put8 : ℕ → S → S

-- The state of the loop: the mixin's, the window, the write position and the flag byte with the
-- number of its bit.
pub record Decoder (S : Type 0) : Type 0 where
  pub s : S
  pub text_buf : ℕ → ℕ
  pub r : ℕ
  pub flags : ℕ
  pub z : ℕ
  pub cur_size : ℕ

module _ {S : Type 0} (mixin : Mixin S) where
  -- `put8(c); text_buf[r++] = c; r &= N - 1; cur_size++`
  unfoldable pub emit_byte : ℕ → Decoder S → Decoder S
  emit_byte c d = record d {
    s = mixin.put8 c d.s;
    text_buf = λ k. if k == d.r then c else d.text_buf k;
    r = (d.r + 1) % 2 ^ 12;
    cur_size = u32 (d.cur_size + 1);
  }

  -- The next flag, from the next flag byte after eight of them.
  unfoldable pub next_flag : Decoder S → Decoder S
  next_flag d =
      if d.z + 1 == 8
      then record d { s = (mixin.get8 d.s).1; flags = (mixin.get8 d.s).0; z = 0 }
      else record d { flags = u32 (d.flags * 2); z = d.z + 1 }

  unfoldable pub literal : Decoder S → Decoder S
  literal d = emit_byte (mixin.get8 d.s).0 (record d { s = (mixin.get8 d.s).1 })

  -- `n` rounds of the loop that copies from the window.
  unfoldable pub copy_bytes : (n j : ℕ) → Decoder S → Decoder S
  copy_bytes zero j d = d
  copy_bytes (suc n) j d =
      copy_bytes n j (emit_byte (d.text_buf ((d.r + 2 ^ 12 - j - 1) % 2 ^ 12)) d)

  -- The high half of the first byte is the length less 3; the low half and the second are the distance.
  unfoldable pub back_reference : Decoder S → Decoder S
  back_reference d =
      let first = mixin.get8 d.s in
      let second = mixin.get8 first.1 in
      let j = first.0 % 2 ^ 4 * 2 ^ 8 + second.0 in
      copy_bytes (first.0 / 2 ^ 4 + 2 + 1) j (record d { s = second.1 })

  unfoldable pub round : Decoder S → Decoder S
  round d = let d' = next_flag d in if bit d'.flags 7 then back_reference d' else literal d'

  -- `while (cur_size < decomp_size)`; `none` means that the fuel ran out.
  unfoldable pub loop : (fuel decomp_size : ℕ) → Decoder S → Option (Decoder S)
  loop zero decomp_size d = if ltb d.cur_size decomp_size then none else some d
  loop (suc fuel) decomp_size d =
      let rest = loop fuel decomp_size (round d) in
      if ltb d.cur_size decomp_size then rest else some d

  -- `text_buf` is what an earlier run left.
  unfoldable pub decode : (fuel : ℕ) → S → (text_buf : ℕ → ℕ) → Option (Decoder S)
  decode fuel s text_buf =
      let c0 = mixin.get8 (mixin.get_header s) in
      let c1 = mixin.get8 c0.1 in
      let c2 = mixin.get8 c1.1 in
      let c3 = mixin.get8 c2.1 in
      let gbaheader = c0.0 + c1.0 * 2 ^ 8 + c2.0 * 2 ^ 16 + c3.0 * 2 ^ 24 in
      loop fuel (gbaheader / 2 ^ 8) (record {
        s = c3.1;
        text_buf = λ k. if ltb k (2 ^ 12 - 18) then 0xFF else text_buf k;
        r = 2 ^ 12 - 18;
        flags = 7;
        z = 7;
        cur_size = 0;
      })
