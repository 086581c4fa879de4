-- ===== src/Lz77/Window.antt =====
-- The window of Core/lz77.h holds the last bytes of the output.
use ndse_core.Base.{ℕ, zero, suc, ◌+◌, ◌-◌, ◌%◌, ◌^◌, ◌<◌, ◌≡◌, ◌≢◌, arith, refl, ap, ◌∙◌}
use ndse_core.Base.{◌==◌, if◌then◌else◌, List, ◌∷◌, length, get_or, u32}
use ndse_core.Lz77.{Decoder, emit_byte, copy_bytes}
use ndse_core.Lz77.Encode.{Tape, tape, copy_history}

-- The byte `j + 1` back is the byte `j + 1` back in the output `h`, whose last byte comes first.
pub record Holds (d : Decoder Tape) (h : List ℕ) : Type 0 where
  pub small : d.r < 2 ^ 12
  pub seen :
      (j : ℕ)
      → j < length h
      → j < 2 ^ 12
      → d.text_buf ((d.r + 2 ^ 12 - j - 1) % 2 ^ 12) ≡ get_or h j 0
  pub counted : d.cur_size ≡ length h % 2 ^ 32
  pub written : d.s.output ≡ h

if_hit : (a b x y : ℕ) → a ≡ b → (if a == b then x else y) ≡ x
if_hit a b x y e = ground arith

if_miss : (a b x y : ℕ) → a ≢ b → (if a == b then x else y) ≡ y
if_miss a b x y e = ground arith

emit_byte-seen :
    (c : ℕ) (d : Decoder Tape) (h : List ℕ) (j : ℕ)
    → Holds d h
    → j < suc (length h)
    → j < 2 ^ 12
    → (emit_byte tape c d).text_buf (((emit_byte tape c d).r + 2 ^ 12 - j - 1) % 2 ^ 12)
      ≡ get_or (c ∷ h) j 0
unfolding emit_byte
emit_byte-seen c d h zero v a b =
    let small = v.small in
    let i = ((d.r + 1) % 2 ^ 12 + 2 ^ 12 - 0 - 1) % 2 ^ 12 in
    if_hit i d.r c (d.text_buf i) (omega arith)
emit_byte-seen c d h (suc j) v a b =
    let small = v.small in
    let i = ((d.r + 1) % 2 ^ 12 + 2 ^ 12 - suc j - 1) % 2 ^ 12 in
    let back : i ≡ (d.r + 2 ^ 12 - j - 1) % 2 ^ 12 = omega arith in
    let other : i ≢ d.r = λ e. absurd (omega arith) in
    if_miss i d.r c (d.text_buf i) other ∙ ap d.text_buf back ∙ v.seen j (omega arith) (omega arith)

pub emit_byte-Holds :
    (c : ℕ) (d : Decoder Tape) (h : List ℕ) → Holds d h → Holds (emit_byte tape c d) (c ∷ h)
unfolding emit_byte
emit_byte-Holds c d h v = record {
  small = omega arith;
  seen = λ j. emit_byte-seen c d h j v;
  counted = counts v.counted;
  written = ap (λ o. c ∷ o) v.written;
}
  where
    counts : d.cur_size ≡ length h % 2 ^ 32 → u32 (d.cur_size + 1) ≡ suc (length h) % 2 ^ 32
    counts e = omega arith

-- What an output operation leaves alone.
pub record SameInput (d' d : Decoder Tape) : Type 0 where
  pub same_input : d'.s.input ≡ d.s.input
  pub same_flags : d'.flags ≡ d.flags
  pub same_z : d'.z ≡ d.z

pub emit_byte-SameInput : (c : ℕ) (d : Decoder Tape) → SameInput (emit_byte tape c d) d
unfolding emit_byte
emit_byte-SameInput c d = record { same_input = refl; same_flags = refl; same_z = refl }

-- Copying from the window is copying from the output.
pub copy_bytes-Holds :
    (n j : ℕ) (d : Decoder Tape) (h : List ℕ)
    → j < length h
    → j < 2 ^ 12
    → Holds d h
    → Holds (copy_bytes tape n j d) (copy_history n j h) × SameInput (copy_bytes tape n j d) d
unfolding copy_bytes
copy_bytes-Holds zero j d h a b v =
    (v, record { same_input = refl; same_flags = refl; same_z = refl })
copy_bytes-Holds (suc n) j d h a b v =
    let c = d.text_buf ((d.r + 2 ^ 12 - j - 1) % 2 ^ 12) in
    let d' = emit_byte tape c d in
    let same = v.seen j a b in
    let next : Holds d' (get_or h j 0 ∷ h) = rw (← same) (emit_byte-Holds c d h v) in
    let rest = copy_bytes-Holds n j d' (get_or h j 0 ∷ h) (omega arith) b next in
    let kept = emit_byte-SameInput c d in
    (
      rest.0,
      record {
        same_input = rest.1.same_input ∙ kept.same_input;
        same_flags = rest.1.same_flags ∙ kept.same_flags;
        same_z = rest.1.same_z ∙ kept.same_z;
      },
    )
