-- ===== src/Vram/Replay.antt =====
-- Passes over the control registers of video memory, and what the memory maps were asked for in them
-- (Core/vram.cpp).
use ndse_core.Base.{ℕ, ◌≡◌, ◌⊎◌, ◌<◌, arith, refl, ap, ◌∙◌, inl, inr, ◌&◌}
use ndse_core.Base.{List, [], ◌∷◌, Option, none}
use ndse_core.Ipc.{Cpu}
use ndse_core.Vram.{Banks, bank_at, remap, init}
use ndse_core.Vram.Placed.{placed, IsRecorded}
use ndse_core.Vram.Homes.{target-home_a, target-home_b, target-home_c, target-home_d, target-home_e}
use ndse_core.Vram.Steps.{
  Step, step_of, a-IsOther, b-IsOther, c-IsOther, d-IsOther, e-IsOther, f-IsOther, g-IsOther,
  h-IsOther, i-IsOther,
}
use ndse_core.Vram.Calls.{next, AreOthers, run-placed}

-- The same after several passes, oldest first.
abbrev pub replay : ℕ → Cpu → List (ℕ → ℕ) → (before : Option ℕ) → Option ℕ
replay k t [] before = before
replay k t (registers ∷ rest) before = replay k t rest (next k (registers k) t before)

abbrev pub AreBytes : List (ℕ → ℕ) → Type 0
AreBytes [] = Unit
AreBytes (registers ∷ rest) = ((i : ℕ) → registers i < 256) × AreBytes rest

module _ (beyond : ℕ → ℕ) where
  -- The calls of a pass.
  abbrev call_a : (ℕ → ℕ) → Step
  call_a r = step_of (r 0) 3 0x18 0

  abbrev call_b : (ℕ → ℕ) → Step
  call_b r = step_of (r 1) 3 0x18 1

  abbrev call_c : (ℕ → ℕ) → Step
  call_c r = step_of (r 2) 7 0x18 2

  abbrev call_d : (ℕ → ℕ) → Step
  call_d r = step_of (r 3) 7 0x18 3

  abbrev call_e : (ℕ → ℕ) → Step
  call_e r = step_of (r 4) 7 0 4

  abbrev last_calls : (ℕ → ℕ) → List Step
  last_calls r =
      step_of (r 5) 7 0x18 5
      ∷ step_of (r 6) 7 0x18 6
      ∷ step_of (r 8) 3 0 7
      ∷ step_of (r 9) 3 0 8
      ∷ []

  last-AreOthers : (r : ℕ → ℕ) (k : ℕ) → k < 5 → AreOthers beyond k (last_calls r)
  last-AreOthers r k h =
      f-IsOther beyond (r 5) k (omega arith)
      & g-IsOther beyond (r 6) k (omega arith)
      & h-IsOther beyond (r 8) k (omega arith)
      & i-IsOther beyond (r 9) k h
      & tt

  -- A pass puts bank `k` where its register says, and records it there.
  abbrev Lands : (ℕ → ℕ) → ℕ → Banks → Cpu → Type 0
  Lands r k s t =
      (placed t k (remap beyond r s) ≡ next k (r k) t (placed t k s))
      × IsRecorded k (remap beyond r s)

  remap_a-Lands : (r : ℕ → ℕ) (s : Banks) (t : Cpu) → r 0 < 256 → IsRecorded 0 s → Lands r 0 s t
  unfolding remap bank_at
  remap_a-Lands r s t h =
      run-placed beyond 0 [] (call_a r) (call_b r ∷ call_c r ∷ call_d r ∷ call_e r ∷ last_calls r) s
        t (omega arith) tt (refl, target-home_a beyond (r 0) h, refl)
        (b-IsOther beyond (r 1) 0 (omega arith)
          & c-IsOther beyond (r 2) 0 (omega arith)
          & d-IsOther beyond (r 3) 0 (omega arith)
          & e-IsOther beyond (r 4) 0 (omega arith)
          & last-AreOthers r 0 (omega arith))

  remap_b-Lands : (r : ℕ → ℕ) (s : Banks) (t : Cpu) → r 1 < 256 → IsRecorded 1 s → Lands r 1 s t
  unfolding remap bank_at
  remap_b-Lands r s t h =
      run-placed beyond 1 (call_a r ∷ []) (call_b r) (call_c r ∷ call_d r ∷ call_e r ∷ last_calls r)
        s t (omega arith) (a-IsOther beyond (r 0) 1 (omega arith) & tt)
        (refl, target-home_b beyond (r 1) h, refl)
        (c-IsOther beyond (r 2) 1 (omega arith)
          & d-IsOther beyond (r 3) 1 (omega arith)
          & e-IsOther beyond (r 4) 1 (omega arith)
          & last-AreOthers r 1 (omega arith))

  remap_c-Lands : (r : ℕ → ℕ) (s : Banks) (t : Cpu) → r 2 < 256 → IsRecorded 2 s → Lands r 2 s t
  unfolding remap bank_at
  remap_c-Lands r s t h =
      run-placed beyond 2 (call_a r ∷ call_b r ∷ []) (call_c r) (call_d r ∷ call_e r ∷ last_calls r)
        s t (omega arith)
        (a-IsOther beyond (r 0) 2 (omega arith) & b-IsOther beyond (r 1) 2 (omega arith) & tt)
        (refl, target-home_c beyond (r 2) h, refl)
        (d-IsOther beyond (r 3) 2 (omega arith)
          & e-IsOther beyond (r 4) 2 (omega arith)
          & last-AreOthers r 2 (omega arith))

  remap_d-Lands : (r : ℕ → ℕ) (s : Banks) (t : Cpu) → r 3 < 256 → IsRecorded 3 s → Lands r 3 s t
  unfolding remap bank_at
  remap_d-Lands r s t h =
      run-placed beyond 3 (call_a r ∷ call_b r ∷ call_c r ∷ []) (call_d r) (call_e r ∷ last_calls r)
        s t (omega arith)
        (a-IsOther beyond (r 0) 3 (omega arith)
          & b-IsOther beyond (r 1) 3 (omega arith)
          & c-IsOther beyond (r 2) 3 (omega arith)
          & tt)
        (refl, target-home_d beyond (r 3) h, refl)
        (e-IsOther beyond (r 4) 3 (omega arith) & last-AreOthers r 3 (omega arith))

  remap_e-Lands : (r : ℕ → ℕ) (s : Banks) (t : Cpu) → r 4 < 256 → IsRecorded 4 s → Lands r 4 s t
  unfolding remap bank_at
  remap_e-Lands r s t h =
      run-placed beyond 4 (call_a r ∷ call_b r ∷ call_c r ∷ call_d r ∷ []) (call_e r) (last_calls r)
        s t (omega arith)
        (a-IsOther beyond (r 0) 4 (omega arith)
          & b-IsOther beyond (r 1) 4 (omega arith)
          & c-IsOther beyond (r 2) 4 (omega arith)
          & d-IsOther beyond (r 3) 4 (omega arith)
          & tt)
        (refl, target-home_e beyond (r 4) h, refl) (last-AreOthers r 4 (omega arith))

  remap-Lands :
      (r : ℕ → ℕ) (k : ℕ) (s : Banks) (t : Cpu)
      → k < 5
      → ((i : ℕ) → r i < 256)
      → IsRecorded k s
      → Lands r k s t
  remap-Lands r k s t l h =
      let ks : (k ≡ 0) ⊎ (k ≡ 1) ⊎ (k ≡ 2) ⊎ (k ≡ 3) ⊎ (k ≡ 4) = omega arith in
      elim ks [
        | inl e ↦ rw e (remap_a-Lands r s t (h 0))
        | inr (inl e) ↦ rw e (remap_b-Lands r s t (h 1))
        | inr (inr (inl e)) ↦ rw e (remap_c-Lands r s t (h 2))
        | inr (inr (inr (inl e))) ↦ rw e (remap_d-Lands r s t (h 3))
        | inr (inr (inr (inr e))) ↦ rw e (remap_e-Lands r s t (h 4))
      ]

  abbrev pub passes : List (ℕ → ℕ) → Banks → Banks
  passes [] s = s
  passes (r ∷ rest) s = passes rest (remap beyond r s)

  passes-placed :
      (rs : List (ℕ → ℕ)) (k : ℕ) (s : Banks) (t : Cpu)
      → k < 5
      → AreBytes rs
      → IsRecorded k s
      → placed t k (passes rs s) ≡ replay k t rs (placed t k s)
  passes-placed [] k s t l h v = refl
  passes-placed (r ∷ rest) k s t l h v =
      let first = remap-Lands r k s t l h.0 v in
      passes-placed rest k (remap beyond r s) t l h.1 first.1 ∙ ap (replay k t rest) first.0

  -- After any passes over registers of one byte from the start, the memory map of each processor
  -- was last asked to have each of the banks A to E where the passes put it one by one: at its
  -- home, from a pass whose register enables it in a mode with a home on that processor; nowhere,
  -- from a pass whose register disables it; and where it was before, from any other pass.
  pub passes-replay :
      (rs : List (ℕ → ℕ)) (k : ℕ) (t : Cpu)
      → k < 5
      → AreBytes rs
      → placed t k (passes rs init) ≡ replay k t rs none
  passes-replay rs k t l h = passes-placed rs k init t l h (λ u. refl)
