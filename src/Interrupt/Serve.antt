-- ===== src/Interrupt/Serve.antt =====
-- Which interrupts a poll dispatches, and in which order (Core/Interrupt.h).
use ndse_core.Base.{ℕ, zero, suc, ◌+◌, ◌<◌, ◌≤◌, ◌^◌, ◌==◌, ◌≡◌, ◌⊎◌, refl, ap, ap₂, ◌∙◌, arith}
use ndse_core.Base.{Bool, true, false, ◌&&◌, ◌||◌, not, bit, bit_and}
use ndse_core.Base.{List, [], ◌∷◌, ◌++◌, if◌then◌else◌, if-else, if-holds, inl, inr}
use ndse_core.Base.Bits.{and-pow_and, bit-and}
use ndse_core.Base.Pow.{pow_pos}
use ndse_core.Interrupt.{
  InterruptState, switch_and_invoke_old, poll_mask, poll_masks, poll_process9, poll_process7,
}

-- The interrupts from `i` on, `n` numbers, that are signaled and enabled, in ascending order.
unfoldable pub pending : (n i signaled ie : ℕ) → List ℕ
pending zero i signaled ie = []
pending (suc n) i signaled ie =
    let rest = pending n (suc i) signaled ie in
    if bit signaled i && bit ie i then i ∷ rest else rest

pending-and : (n i s ie : ℕ) → pending n i (bit_and s ie) ie ≡ pending n i s ie
unfolding pending
pending-and zero i s ie = refl
pending-and (suc n) i s ie =
    ap₂ (λ b rest. if b then i ∷ rest else rest)
      (ap (λ b. b && bit ie i) (bit-and i s ie) ∙ again (bit s i) (bit ie i))
      (pending-and n (suc i) s ie)
  where
    again : (a b : Bool) → ((a && b) && b) ≡ (a && b)
    again true true = refl
    again true false = refl
    again false b = refl

abbrev pub IsBelow : ℕ → List ℕ → Type 0
IsBelow i [] = Unit
IsBelow i (k ∷ ks) = (k < i) × IsBelow i ks

abbrev pub IsAbove : ℕ → List ℕ → Type 0
IsAbove i [] = Unit
IsAbove i (k ∷ ks) = (i < k) × IsAbove i ks

pending-IsAbove : (n j s ie i : ℕ) → i < j → IsAbove i (pending n j s ie)
unfolding pending
pending-IsAbove zero j s ie i h = tt
pending-IsAbove (suc n) j s ie i h =
    let rest = pending-IsAbove n (suc j) s ie i (omega arith) in
    if-holds (IsAbove i) (bit s j && bit ie j) (h, rest) rest

-- Where `i` stands in what is pending.
abbrev IsSplitAt : ℕ → List ℕ → Type 0
IsSplitAt i is =
    (before : List ℕ) × (after : List ℕ) × (is ≡ before ++ i ∷ after)
    × IsBelow i before
    × IsAbove i after

pending-split :
    (n j s ie i : ℕ)
    → j ≤ i
    → i < j + n
    → bit s i ≡ true
    → bit ie i ≡ true
    → IsSplitAt i (pending n j s ie)
unfolding pending
pending-split zero j s ie i lo hi p q = absurd (omega arith)
pending-split (suc n) j s ie i lo hi p q =
    let cases : (j ≡ i) ⊎ (j < i) = omega arith in
    elim cases [
      | inl e ↦
          let rest = pending n (suc j) s ie in
          let both = ap₂ (λ a b. a && b) (ap (bit s) e ∙ p) (ap (bit ie) e ∙ q) in
          (
            [],
            rest,
            ap (λ b. if b then j ∷ rest else rest) both ∙ ap (λ k. k ∷ rest) e,
            tt,
            pending-IsAbove n (suc j) s ie i (omega arith),
          )
      | inr l ↦
          let rest = pending-split n (suc j) s ie i (omega arith) (omega arith) p q in
          if-holds (IsSplitAt i) (bit s j && bit ie j)
            (j ∷ rest.0, rest.1, ap (λ is. j ∷ is) rest.2, (l, rest.3), rest.4) rest
    ]

module _ (invoke : ℕ → InterruptState → InterruptState) where
  -- Interrupt `i` alone: IF holds its bit, and the guest's handler runs.
  unfoldable pub serve : ℕ → InterruptState → InterruptState
  serve i m = switch_and_invoke_old invoke m.irq_handler (record m { if_flags = 2 ^ i })

  unfoldable pub serve_all : List ℕ → InterruptState → InterruptState
  serve_all [] m = m
  serve_all (i ∷ is) m = serve_all is (serve i m)

  -- The handler leaves the register IE alone.
  abbrev pub KeepsIe : Type 0
  KeepsIe = (addr : ℕ) (m : InterruptState) → (invoke addr m).ie ≡ m.ie

  serve-ie : KeepsIe → (i : ℕ) (m : InterruptState) → (serve i m).ie ≡ m.ie
  unfolding serve switch_and_invoke_old
  serve-ie keeps i m = keeps m.irq_handler _

  poll_mask-serve :
      (intr i : ℕ) (m : InterruptState)
      → poll_mask invoke intr (2 ^ i) m ≡ (if bit intr i && bit m.ie i then serve i m else m)
  unfolding poll_mask serve
  poll_mask-serve intr i m = ap raise (and-pow_and i intr m.ie) ∙ chosen (bit intr i && bit m.ie i)
    where
      raise : ℕ → InterruptState
      raise itr =
          if itr == 0
          then m
          else switch_and_invoke_old invoke m.irq_handler (record m { if_flags = itr })

      chosen : (c : Bool) → raise (if c then 2 ^ i else 0) ≡ (if c then serve i m else m)
      chosen true = if-else (2 ^ i) m (serve i m) (λ e. absurd (omega (arith, e, pow_pos i)))
      chosen false = refl

  -- The rounds from `i` on serve what is pending there.
  poll_masks-serve_all :
      KeepsIe
      → (n i intr : ℕ) (m : InterruptState)
      → poll_masks invoke n i intr m ≡ serve_all (pending n i intr m.ie) m
  unfolding poll_masks serve_all pending
  poll_masks-serve_all keeps zero i intr m = refl
  poll_masks-serve_all keeps (suc n) i intr m =
      ap (poll_masks invoke n (suc i) intr) (poll_mask-serve intr i m)
      ∙ chosen (λ k. poll_masks-serve_all keeps n (suc i) intr k) (bit intr i && bit m.ie i)
    where
      rest : List ℕ
      rest = pending n (suc i) intr m.ie

      chosen :
          ((k : InterruptState)
            → poll_masks invoke n (suc i) intr k ≡ serve_all (pending n (suc i) intr k.ie) k)
          → (c : Bool)
          → poll_masks invoke n (suc i) intr (if c then serve i m else m)
            ≡ serve_all (if c then i ∷ rest else rest) m
      chosen below true =
          below (serve i m)
          ∙ ap (λ ie. serve_all (pending n (suc i) intr ie) (serve i m)) (serve-ie keeps i m)
      chosen below false = below m

  -- With interrupts enabled and none running, a poll of either processor serves exactly the
  -- interrupts that are signaled and enabled in IE, one after the other in ascending order, from a
  -- state in which nothing is signaled any more; so one that is signaled and not enabled is dropped.
  pub poll_process-serve_all :
      (m : InterruptState)
      → KeepsIe
      → m.inside ≡ false
      → bit m.ime 0 ≡ true
      → let served = serve_all (pending 32 0 m.signaled m.ie) (record m { signaled = 0 }) in
        (poll_process9 invoke m ≡ served) × (poll_process7 invoke m ≡ served)
  unfolding poll_process9 poll_process7
  poll_process-serve_all m keeps out on =
      let cleared : InterruptState = record m { signaled = 0 } in
      let polls : (m.inside || not (bit m.ime 0)) ≡ false = ap₂ (λ a b. a || not b) out on in
      let all = poll_masks-serve_all keeps 32 0 in
      (
        ap (λ b. if b then m else poll_masks invoke 32 0 m.signaled cleared) polls
            ∙ all m.signaled cleared,
        ap (λ b. if b then m else poll_masks invoke 32 0 (bit_and m.signaled m.ie) cleared) polls
            ∙ all (bit_and m.signaled m.ie) cleared
            ∙ ap (λ is. serve_all is cleared) (pending-and 32 0 m.signaled m.ie),
      )

  serve_all-append :
      (before after : List ℕ) (m : InterruptState)
      → serve_all (before ++ after) m ≡ serve_all after (serve_all before m)
  unfolding serve_all
  serve_all-append [] after m = refl
  serve_all-append (i ∷ before) after m = serve_all-append before after (serve i m)

  -- Every interrupt that is signaled and enabled is served exactly once, after the lower ones and
  -- before the higher ones, by a poll of either processor with interrupts enabled and none running,
  -- where the handlers leave IE alone.
  pub poll_process-serves :
      (m : InterruptState) (i : ℕ)
      → KeepsIe
      → m.inside ≡ false
      → bit m.ime 0 ≡ true
      → i < 32
      → bit m.signaled i ≡ true
      → bit m.ie i ≡ true
      → (before : List ℕ) × (after : List ℕ) × IsBelow i before
        × IsAbove i after
        × let last = serve_all after (serve i (serve_all before (record m { signaled = 0 }))) in
          (poll_process9 invoke m ≡ last) × (poll_process7 invoke m ≡ last)
  unfolding serve_all
  poll_process-serves m i keeps out on low signaled enabled =
      let polled = poll_process-serve_all m keeps out on in
      let cut = pending-split 32 0 m.signaled m.ie i (omega arith) (omega arith) signaled enabled in
      let parted =
        ap (λ is. serve_all is (record m { signaled = 0 })) cut.2
        ∙ serve_all-append cut.0 (i ∷ cut.1) (record m { signaled = 0 }) in
      (cut.0, cut.1, cut.3, cut.4, (polled.0 ∙ parted, polled.1 ∙ parted))
