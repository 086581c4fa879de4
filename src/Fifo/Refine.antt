-- ===== src/Fifo/Refine.antt =====
-- A FIFO of 16 slots behaves as the queue of the values that it holds, also while its positions wrap.
use ndse_core.Base.{ℕ, zero, suc, ◌+◌, ◌%◌, ◌^◌, ◌≤◌, ◌<◌, ◌≡◌, ◌≢◌, refl, ap, ap₂, ◌∙◌, arith}
use ndse_core.Base.{◌↔◌, true, List, [], ◌∷◌, ◌++◌, length, get_or, set, u32, sub32}
use ndse_core.Base.{length-set, get_or-set_self, get_or-set_ne}
use ndse_core.Fifo.{Fifo, empty, full, write, read, reset}

-- How many values are held.
abbrev pub count : Fifo → ℕ
count f = sub32 f.writepos f.readpos

pub record IsValid (f : Fifo) : Type 0 where
  pub slots : length f.queue ≡ 16
  pub read_word : f.readpos < 2 ^ 32
  pub write_word : f.writepos < 2 ^ 32
  pub fits : count f ≤ 16

module _ (q : List ℕ) where
  -- The values in `left` slots from position `r` on.
  abbrev pub window : ℕ → ℕ → List ℕ
  window r zero = []
  window r (suc left) = get_or q (r % 16) 0 ∷ window (r + 1) left

  -- Only the slot of a position counts.
  window-mod : (r s left : ℕ) → r % 16 ≡ s % 16 → window r left ≡ window s left
  window-mod r s zero e = refl
  window-mod r s (suc left) e =
      ap₂ ◌∷◌ (ap (λ k. get_or q k 0) e) (window-mod (r + 1) (s + 1) left (omega arith))

-- The values held, oldest first.
abbrev pub contents : Fifo → List ℕ
contents f = window f.queue f.readpos (count f)

-- Writing the slot after a window extends it.
window-set :
    (q : List ℕ) (v r left w : ℕ)
    → length q ≡ 16
    → left < 16
    → w ≡ (r + left) % 16
    → window (set q w v) r (suc left) ≡ window q r left ++ (v ∷ [])
window-set q v r zero w h l e =
    ap (λ x. x ∷ []) (rw (← here) (get_or-set_self q w v 0 (omega arith)))
  where
    here : w ≡ r % 16
    here = omega arith
window-set q v r (suc left) w h l e =
    ap₂ ◌∷◌ (get_or-set_ne q w (r % 16) v 0 (omega arith))
      (window-set q v (r + 1) left w h (omega arith) (omega arith))

length-window : (q : List ℕ) (r left : ℕ) → length (window q r left) ≡ left
length-window q r zero = refl
length-window q r (suc left) = ap suc (length-window q (r + 1) left)

pub length-contents : (f : Fifo) → length (contents f) ≡ count f
length-contents f = length-window f.queue f.readpos (count f)

-- While fewer than 16 values are held, a write keeps the buffer valid and puts its value behind
-- them.
pub write_refines :
    (v : ℕ) {f : Fifo}
    → IsValid f
    → length (contents f) < 16
    → IsValid (write 16 v f) × (contents (write 16 v f) ≡ contents f ++ (v ∷ []))
unfolding write
write_refines v {f} valid held = (
  ground (arith, length-set f.queue (f.writepos % 16) v),
  ap (window (set f.queue (f.writepos % 16) v) f.readpos) grows
      ∙ window-set f.queue v f.readpos (count f) (f.writepos % 16) valid.slots room (omega arith),
)
  where
    room : count f < 16
    room = rw (← length-contents f) held

    grows : sub32 (u32 (f.writepos + 1)) f.readpos ≡ suc (count f)
    grows = omega arith

-- While a value is held, a read returns the oldest one and keeps the buffer valid with the rest.
pub read_refines :
    {f : Fifo}
    → IsValid f
    → contents f ≢ []
    → IsValid (read 16 f).1 × (contents f ≡ (read 16 f).0 ∷ contents (read 16 f).1)
unfolding read
read_refines {f} valid held = (
  ground (arith, some_held (count f) refl),
  ap (window f.queue f.readpos) (some_held (count f) refl)
      ∙ ap (λ rest. get_or f.queue (f.readpos % 16) 0 ∷ rest)
          (window-mod f.queue (f.readpos + 1) (u32 (f.readpos + 1)) left (omega arith)),
)
  where
    left : ℕ
    left = sub32 f.writepos (u32 (f.readpos + 1))

    some_held : (k : ℕ) → count f ≡ k → count f ≡ suc left
    some_held zero e = absurd (held (ap (window f.queue f.readpos) e))
    some_held (suc k) e = omega arith

-- The two tests of the positions tell exactly whether no value is held, and whether 16 are.
pub empty-full_iff :
    {f : Fifo}
    → IsValid f
    → ((empty 16 f ≡ true) ↔ (length (contents f) ≡ 0))
      × ((full 16 f ≡ true) ↔ (length (contents f) ≡ 16))
unfolding full
empty-full_iff {f} valid = rw length-contents (ground arith, ground arith)

-- After a reset the buffer is valid and holds nothing.
pub reset_refines : (f : Fifo) → length f.queue ≡ 16 → IsValid (reset f) × (contents (reset f) ≡ [])
unfolding reset
reset_refines f slots = (ground arith, refl)
