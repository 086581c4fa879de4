-- ===== src/Vram/Calls.antt =====
-- What the calls of `map_vcnt` in a pass ask for one bank (Core/vram.cpp).
use ndse_core.Base.{ℕ, ◌/◌, ◌^◌, ◌≡◌, ◌==◌, ◌<◌, refl, ap, sym, ◌∙◌, if◌then◌else◌}
use ndse_core.Base.{Bool-cases, inl, inr}
use ndse_core.Base.{List, [], ◌∷◌, Option, none, some, bit}
use mathlib.Core.Path.{subst}
use ndse_core.Ipc.{Cpu}
use ndse_core.Vram.{Banks, Target, same_cpu, unmap_bank, disable, map_target, map_vcnt, bank_at}
use ndse_core.Vram.Placed.{bank_number, placed, IsRecorded, IsUntouched, unmap_bank-placed}
use ndse_core.Vram.Placed.{map_bank-placed, unmap_bank-IsRecorded, map_bank-IsRecorded}
use ndse_core.Vram.Homes.{home, IsHome, home-IsHome}
use ndse_core.Vram.Steps.{Step, target_of, step, IsOther, step-IsUntouched}

-- The page that a bank with a home, or none, begins at on a processor.
abbrev pub at_home : Option Target → Cpu → (before : Option ℕ) → Option ℕ
at_home none t before = before
at_home (some (u, b, addr)) t before = if same_cpu u t then some (addr / 2 ^ 9) else before

-- The page that bank `k` begins at on a processor after a pass: its home where its register enables it
-- (bit 7), for the processor that the home is on, and nowhere where it disables it.
abbrev pub next : (k control : ℕ) → Cpu → (before : Option ℕ) → Option ℕ
next k control t before = if bit control 7 then at_home (home k control) t before else none

disable-placed :
    (k : ℕ) (s : Banks) (t : Cpu)
    → bank_number (bank_at k) ≡ k
    → IsRecorded k s
    → (placed t k (disable k s) ≡ none) × IsRecorded k (disable k s)
disable-placed k s t e v =
    let b = bank_at k in
    let r = unmap_bank Cpu.arm7 k b s in
    let w = unmap_bank-IsRecorded Cpu.arm7 k b s e v in
    let first = unmap_bank-placed Cpu.arm7 k b s t e v in
    let second = unmap_bank-placed Cpu.arm9 k b r t e w in
    (second ∙ gone t (placed t k r) (placed t k s) first, unmap_bank-IsRecorded Cpu.arm9 k b r e w)
  where
    gone :
        (u : Cpu) (x y : Option ℕ)
        → x ≡ (if same_cpu Cpu.arm7 u then none else y)
        → (if same_cpu Cpu.arm9 u then none else x) ≡ none
    gone Cpu.arm7 x y h = h
    gone Cpu.arm9 x y h = refl

map_target-placed :
    (k : ℕ) (o : Option Target) (s : Banks) (t : Cpu)
    → IsHome k o
    → IsRecorded k s
    → (placed t k (map_target k o s) ≡ at_home o t (placed t k s)) × IsRecorded k (map_target k o s)
map_target-placed k none s t h v = (refl, v)
map_target-placed k (some (u, b, addr)) s t h v =
    (map_bank-placed u k b addr s t h.0 h.1 v, map_bank-IsRecorded u k b addr s h.0 h.1 v)

IsRecorded-IsUntouched :
    (k : ℕ) (s s' : Banks) → IsUntouched k s s' → IsRecorded k s → IsRecorded k s'
IsRecorded-IsUntouched k s s' same v t =
    (same t).0 ∙ v t ∙ ap (λ x. if x == 0 then none else some (x / 2 ^ 9)) (sym (same t).1)

module _ (beyond : ℕ → ℕ) where
  -- The call about bank `k` finds its home.
  abbrev pub FindsHome : ℕ → Step → Type 0
  FindsHome k x = (x.idx ≡ k) × (target_of beyond x ≡ home k x.cnt) × (bank_number (bank_at k) ≡ k)

  step-placed :
      (k : ℕ) (x : Step) (s : Banks) (t : Cpu)
      → k < 5
      → FindsHome k x
      → IsRecorded k s
      → (placed t k (step beyond x s) ≡ next k x.cnt t (placed t k s))
        × IsRecorded k (step beyond x s)
  unfolding map_vcnt
  step-placed k x s t l f v =
      let c = x.cnt in
      let mapped = map_target-placed k (home k c) s t (home-IsHome k c l) v in
      let off = disable-placed k s t f.2 v in
      let same : step beyond x s ≡ (if bit c 7 then map_target k (home k c) s else disable k s) =
        λ i. if bit c 7 then map_target (f.0 i) (f.1 i) s else disable (f.0 i) s in
      elim (Bool-cases (bit c 7)) [
        | inl e ↦
            let on = same ∙ ap (λ b. if b then map_target k (home k c) s else disable k s) e in
            (
              ap (placed t k) on
                  ∙ mapped.0
                  ∙ ap (λ b. if b then at_home (home k c) t (placed t k s) else none) (sym e),
              subst (IsRecorded k) (sym on) mapped.1,
            )
        | inr e ↦
            let on = same ∙ ap (λ b. if b then map_target k (home k c) s else disable k s) e in
            (
              ap (placed t k) on
                  ∙ off.0
                  ∙ ap (λ b. if b then at_home (home k c) t (placed t k s) else none) (sym e),
              subst (IsRecorded k) (sym on) off.1,
            )
      ]

  abbrev pub run : List Step → Banks → Banks
  run [] s = s
  run (x ∷ xs) s = run xs (step beyond x s)

  abbrev pub AreOthers : ℕ → List Step → Type 0
  AreOthers k [] = Unit
  AreOthers k (x ∷ xs) = IsOther beyond k x × AreOthers k xs

  run-IsUntouched :
      (k : ℕ) (xs : List Step) (s : Banks) → AreOthers k xs → IsUntouched k s (run xs s)
  run-IsUntouched k [] s h t = (refl, refl)
  run-IsUntouched k (x ∷ xs) s h t =
      let first = step-IsUntouched beyond k x s h.0 t in
      let rest = run-IsUntouched k xs (step beyond x s) h.1 t in
      (rest.0 ∙ first.0, rest.1 ∙ first.1)

  -- Calls about other banks, the call about bank `k`, and calls about other banks again.
  pub run-placed :
      (k : ℕ) (xs : List Step) (x : Step) (ys : List Step) (s : Banks) (t : Cpu)
      → k < 5
      → AreOthers k xs
      → FindsHome k x
      → AreOthers k ys
      → IsRecorded k s
      → let s' = run ys (step beyond x (run xs s)) in
        (placed t k s' ≡ next k x.cnt t (placed t k s)) × IsRecorded k s'
  run-placed k xs x ys s t l h f j v =
      let q = run xs s in
      let untouched = run-IsUntouched k xs s h in
      let w = IsRecorded-IsUntouched k s q untouched v in
      let put = step-placed k x q t l f w in
      let later = run-IsUntouched k ys (step beyond x q) j in
      (
        (later t).0 ∙ put.0 ∙ ap (next k x.cnt t) (untouched t).0,
        IsRecorded-IsUntouched k (step beyond x q) (run ys (step beyond x q)) later put.1,
      )
