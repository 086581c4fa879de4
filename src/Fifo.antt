-- ===== src/Fifo.antt =====
-- The ring buffer of Core/fifo.h. Its positions are 32-bit counters that only grow, and wrap.
pub mod Refine
mod Tests
use ndse_core.Base.{ℕ, ◌+◌, ◌%◌, ◌==◌, Bool, List, not, ◌&&◌, u32, sub32, get_or, set}

-- `fifo<n>`; the slots are `queue[n]`.
pub record Fifo : Type 0 where
  pub readpos : ℕ
  pub writepos : ℕ
  pub queue : List ℕ

module _ (n : ℕ) where
  unfoldable pub size : Fifo → ℕ
  size f = sub32 f.writepos f.readpos % n

  unfoldable pub empty : Fifo → Bool
  empty f = f.writepos == f.readpos

  unfoldable pub full : Fifo → Bool
  unfolding size empty
  full f = not (empty f) && size f == 0

  unfoldable pub write : ℕ → Fifo → Fifo
  write value f = record f {
    queue = set f.queue (f.writepos % n) value;
    writepos = u32 (f.writepos + 1);
  }

  unfoldable pub top : Fifo → ℕ
  top f = get_or f.queue (f.readpos % n) 0

  -- The value read, and the buffer without it.
  unfoldable pub read : Fifo → ℕ × Fifo
  read f = (get_or f.queue (f.readpos % n) 0, record f { readpos = u32 (f.readpos + 1) })

unfoldable pub reset : Fifo → Fifo
reset f = record f { readpos = 0; writepos = 0 }
