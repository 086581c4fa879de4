-- ===== src/Fifo/Tests.antt =====
-- The ring buffer of Core/fifo.h at concrete positions, the wrap of the counters included.
use ndse_core.Base.{◌^◌, ◌-◌, ◌≡◌, ◌≢◌, refl, arith, [], ◌∷◌, ◌++◌}
use ndse_core.Base.{replicate}
use ndse_core.Fifo.{Fifo, write, read, reset}
use ndse_core.Fifo.Refine.{IsValid, contents, read_refines, write_refines}
use ndse_core.Fifo.Refine.{reset_refines}

-- One value held, written just before the write position wrapped.
abbrev wrapped : Fifo
wrapped = record { readpos = 2 ^ 32 - 1; writepos = 0; queue = replicate 15 0 ++ (7 ∷ []) }

wrapped-IsValid : IsValid wrapped
wrapped-IsValid = omega arith

contents-wrapped : contents (write 16 8 wrapped) ≡ 7 ∷ 8 ∷ []
unfolding write
contents-wrapped = refl

wrapped_held : contents wrapped ≢ []
wrapped_held h = cc

read_refines_example :
    IsValid (read 16 wrapped).1
    × (contents wrapped ≡ (read 16 wrapped).0 ∷ contents (read 16 wrapped).1)
read_refines_example = read_refines wrapped-IsValid wrapped_held

reset_refines_example : IsValid (reset wrapped) × (contents (reset wrapped) ≡ [])
reset_refines_example = reset_refines wrapped refl

write_refines_example :
    IsValid (write 16 8 wrapped) × (contents (write 16 8 wrapped) ≡ contents wrapped ++ (8 ∷ []))
write_refines_example = write_refines 8 wrapped-IsValid (omega arith)
