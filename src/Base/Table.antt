-- ===== src/Base/Table.antt =====
-- Tables of a function's values, which compare two functions on a small range by evaluation.
use ndse_core.Base.Lists.{get_or}
use Prim.Native.Nat.{ℕ, zero, suc, ◌+◌, ◌<◌}
use mathlib.Core.Path.{◌≡◌, ap, ◌∙◌, sym}
use mathlib.Core.List.{List, [], ◌∷◌}
use native.Mathlib.Omega.{arith}

-- The values at `n` numbers from `i` on.
unfoldable pub tabulate : (ℕ → ℕ) → (n i : ℕ) → List ℕ
tabulate f zero i = []
tabulate f (suc n) i = f i ∷ tabulate f n (i + 1)

pub get_or-tabulate : (f : ℕ → ℕ) (n i x : ℕ) → x < n → get_or (tabulate f n i) x 0 ≡ f (i + x)
unfolding tabulate
get_or-tabulate f zero i x h = absurd (omega arith)
get_or-tabulate f (suc n) i zero h = let here : i ≡ i + 0 = omega arith in ap f here
get_or-tabulate f (suc n) i (suc x) h =
    let there : i + 1 + x ≡ i + suc x = omega arith in
    get_or-tabulate f n (i + 1) x (omega arith) ∙ ap f there

pub same_values :
    (f g : ℕ → ℕ) (n : ℕ) → tabulate f n 0 ≡ tabulate g n 0 → (x : ℕ) → x < n → f x ≡ g x
same_values f g n e x h =
    let index : 0 + x ≡ x = omega arith in
    ap f (sym index)
    ∙ sym (get_or-tabulate f n 0 x h)
    ∙ ap (λ table. get_or table x 0) e
    ∙ get_or-tabulate g n 0 x h
    ∙ ap g index
