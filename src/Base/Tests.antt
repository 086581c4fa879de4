-- ===== src/Base/Tests.antt =====
-- Boolean tests on the native numbers, the conditional, and the `switch` statement.
use Prim.Native.Nat.{ℕ, compare, Ordering}
use mathlib.Core.Path.{◌≡◌, refl}
use mathlib.Core.Logic.{◌↔◌, ◌≢◌, ◌⊎◌, inl, inr}
use mathlib.Core.Bool.{Bool, true, false}
use mathlib.Core.List.{List, [], ◌∷◌}
use native.Mathlib.Omega.{arith}

abbrev pub ltb : ℕ → ℕ → Bool
ltb a b = elim (compare a b) [ Ordering.lt ↦ true | _ ↦ false ]

abbrev pub leb : ℕ → ℕ → Bool
leb a b = elim (compare a b) [ Ordering.gt ↦ false | _ ↦ true ]

infix 50 ◌==◌
abbrev pub ◌==◌ : ℕ → ℕ → Bool
a == b = elim (compare a b) [ Ordering.eq ↦ true | _ ↦ false ]

infix 1 if◌then◌else◌
abbrev pub if◌then◌else◌ {ℓ} : {A : Type ℓ} → Bool → A → A → A
if true then x else y = x
if false then x else y = y

-- `switch (x)`: the labels with what each case does, and what happens when no label matches.
abbrev pub switch {ℓ} : {A : Type ℓ} → ℕ → List (ℕ × A) → A → A
switch x [] other = other
switch x ((label, body) ∷ cases) other = if x == label then body else switch x cases other

pub ==_iff : (a b : ℕ) → ((a == b) ≡ true) ↔ (a ≡ b)
==_iff a b = ground arith

pub Bool-cases : (b : Bool) → (b ≡ true) ⊎ (b ≡ false)
Bool-cases true = inl refl
Bool-cases false = inr refl

-- `P` of every case of a `switch`, and of what happens when no label matches.
abbrev pub RowsHold {ℓ ℓ'} : {A : Type ℓ} → (A → Type ℓ') → List (ℕ × A) → A → Type ℓ'
RowsHold P [] other = P other
RowsHold P ((_, body) ∷ cases) other = P body × RowsHold P cases other

pub if-holds {ℓ ℓ'} :
    {A : Type ℓ} (P : A → Type ℓ') (b : Bool) {x y : A} → P x → P y → P (if b then x else y)
if-holds P true p q = p
if-holds P false p q = q

pub switch-holds {ℓ ℓ'} :
    {A : Type ℓ} (P : A → Type ℓ') (x : ℕ) (rows : List (ℕ × A)) (other : A)
    → RowsHold P rows other
    → P (switch x rows other)
switch-holds P x [] other h = h
switch-holds P x ((label, body) ∷ cases) other h =
    if-holds P (x == label) h.0 (switch-holds P x cases other h.1)

infixr 5 ◌&◌
abbrev pub ◌&◌ {ℓ ℓ'} : {A : Type ℓ} {B : Type ℓ'} → A → B → A × B
a & b = (a, b)

pub if-else {ℓ} : {A : Type ℓ} (n : ℕ) (x y : A) → n ≢ 0 → (if n == 0 then x else y) ≡ y
if-else n x y h = ground arith
