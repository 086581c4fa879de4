-- ===== src/Regs/Plain.antt =====
-- The registers without side effects, which behave as memory, and the register IPCSYNC across the
-- processors (Core/IORegs.cpp).
use ndse_core.Base.{ℕ, ◌+◌, ◌*◌, ◌/◌, ◌%◌, ◌^◌, ◌==◌, ◌<◌, ◌≡◌, ◌≢◌, ◌⊎◌, refl, ap, ◌∙◌, arith}
use ndse_core.Base.{List, [], if◌then◌else◌, inl, inr, Bool-cases, if-holds}
use ndse_core.Ipc.{Cpu, Machine, other, regs, get_ipc, set_ipc, store_ipcsync}
use ndse_core.Regs.{
  IoCallback, RegisterFile, IoState, Devices, run_callbacks, word_of, set_word, mark_dirty, file,
  with_file, store_current, store32_arm7, store32_arm9, regs_store32, regs_store8, refreshed,
  regs_load32, regs_load8u, with_byte,
}

-- The address of a register that no case of the stores and loads is about.
abbrev pub IsPlain : ℕ → Type 0
IsPlain addr =
    let x = addr % 2 ^ 13 in
    (x ≢ 0xB8)
    × (x ≢ 0xC4)
    × (x ≢ 0xD0)
    × (x ≢ 0xDC)
    × (x ≢ 0x180)
    × (x ≢ 0x184)
    × (x ≢ 0x188)
    × (x ≢ 0x1C0)
    × (x ≢ 0x240)
    × (x ≢ 0x244)
    × (x ≢ 0x248)

unheard : (fs : List IoCallback) (addr value : ℕ) → fs ≡ [] → run_callbacks fs addr value ≡ value
unfolding run_callbacks
unheard fs addr value e = ap (λ k. run_callbacks k addr value) e

byte_replaced :
    (k j value word : ℕ)
    → k < 4
    → j < 4
    → (word / 2 ^ (8 * k + 8) * 2 ^ (8 * k + 8) + value % 2 ^ 8 * 2 ^ (8 * k) + word % 2 ^ (8 * k))
        / 2 ^ (8 * j)
        % 2 ^ 8
      ≡ (if j == k then value % 2 ^ 8 else word / 2 ^ (8 * j) % 2 ^ 8)
byte_replaced k j value word h l =
    let ks : (k ≡ 0) ⊎ (k ≡ 1) ⊎ (k ≡ 2) ⊎ (k ≡ 3) = omega arith in
    let js : (j ≡ 0) ⊎ (j ≡ 1) ⊎ (j ≡ 2) ⊎ (j ≡ 3) = omega arith in
    elim ks [
      | inl e ↦ elim js [
        | inl f ↦ rw (e, f) omega arith
        | inr (inl f) ↦ rw (e, f) omega arith
        | inr (inr (inl f)) ↦ rw (e, f) omega arith
        | inr (inr (inr f)) ↦ rw (e, f) omega arith
      ]
      | inr (inl e) ↦ elim js [
        | inl f ↦ rw (e, f) omega arith
        | inr (inl f) ↦ rw (e, f) omega arith
        | inr (inr (inl f)) ↦ rw (e, f) omega arith
        | inr (inr (inr f)) ↦ rw (e, f) omega arith
      ]
      | inr (inr (inl e)) ↦ elim js [
        | inl f ↦ rw (e, f) omega arith
        | inr (inl f) ↦ rw (e, f) omega arith
        | inr (inr (inl f)) ↦ rw (e, f) omega arith
        | inr (inr (inr f)) ↦ rw (e, f) omega arith
      ]
      | inr (inr (inr e)) ↦ elim js [
        | inl f ↦ rw (e, f) omega arith
        | inr (inl f) ↦ rw (e, f) omega arith
        | inr (inr (inl f)) ↦ rw (e, f) omega arith
        | inr (inr (inr f)) ↦ rw (e, f) omega arith
      ]
    ]

ipcsync-other :
    (cpu : Cpu) (value : ℕ) (m : Machine)
    → get_ipc (regs (other cpu) (store_ipcsync cpu value m)) % 2 ^ 4 ≡ value / 2 ^ 8 % 2 ^ 4
unfolding get_ipc set_ipc store_ipcsync
ipcsync-other Cpu.arm7 value m = omega arith
ipcsync-other Cpu.arm9 value m = omega arith

module _ {W : Type 0} where
  -- No front end listens to the file.
  abbrev pub IsSilent : Cpu → IoState W → Type 0
  IsSilent cpu s = ((file cpu s).readcbs ≡ []) × ((file cpu s).writecbs ≡ [])

  store32_plain :
      (devices : Devices W) (cpu : Cpu) (addr value : ℕ) (s : IoState W)
      → IsPlain addr
      → IsSilent cpu s
      → regs_store32 devices cpu addr value s ≡ store_current cpu (word_of addr) value s
  unfolding regs_store32 store32_arm7 store32_arm9
  store32_plain devices Cpu.arm7 addr value s h q =
      let kept = unheard s.file7.writecbs addr value q.1 in
      let plain : store32_arm7 addr value s
          ≡ store_current Cpu.arm7 (word_of addr) (run_callbacks s.file7.writecbs addr value) s =
        ground arith in
      plain ∙ ap (λ v. store_current Cpu.arm7 (word_of addr) v s) kept
  store32_plain devices Cpu.arm9 addr value s h q =
      let kept = unheard s.file9.writecbs addr value q.1 in
      let plain : store32_arm9 devices addr value s
          ≡ store_current Cpu.arm9 (word_of addr) (run_callbacks s.file9.writecbs addr value) s =
        ground arith in
      plain ∙ ap (λ v. store_current Cpu.arm9 (word_of addr) v s) kept

  refreshed_plain :
      (cpu : Cpu) (addr : ℕ) (s : IoState W)
      → IsPlain addr
      → refreshed cpu addr s ≡ (file cpu s).words (word_of addr)
  unfolding refreshed
  refreshed_plain Cpu.arm7 addr s h = ground arith
  refreshed_plain Cpu.arm9 addr s h = ground arith

  file-with_file : (cpu : Cpu) (f : RegisterFile) (s : IoState W) → file cpu (with_file cpu f s) ≡ f
  file-with_file Cpu.arm7 f s = refl
  file-with_file Cpu.arm9 f s = refl

  -- A store leaves the value in the word and the callbacks as they are.
  store_current-word :
      (cpu : Cpu) (i value : ℕ) (s : IoState W)
      → ((file cpu (store_current cpu i value s)).words i ≡ value)
        × ((file cpu (store_current cpu i value s)).readcbs ≡ (file cpu s).readcbs)
  unfolding store_current
  store_current-word cpu i value s =
      let f = mark_dirty i (set_word i value (file cpu s)) in
      elim (Bool-cases ((file cpu s).words i == value)) [
        | inl e ↦ let same : (file cpu s).words i ≡ value = ground arith in rw e (same, refl)
        | inr e ↦
            let there = file-with_file cpu f s in
            let set : (if i == i then value else (file cpu s).words i) ≡ value = ground arith in
            rw e (ap (λ k. k.words i) there ∙ set, ap (λ k. k.readcbs) there)
      ]

  load32_plain :
      (cpu : Cpu) (addr : ℕ) (s : IoState W)
      → IsPlain addr
      → (file cpu s).readcbs ≡ []
      → (regs_load32 cpu addr s).0 ≡ (file cpu s).words (word_of addr)
  unfolding regs_load32
  load32_plain cpu addr s h q =
      unheard (file cpu s).readcbs addr (refreshed cpu addr s) q ∙ refreshed_plain cpu addr s h

  -- A word stored to a plain register that nothing listens to is loaded back.
  pub regs_load32-regs_store32 :
      (devices : Devices W) (cpu : Cpu) (addr value : ℕ) (s : IoState W)
      → IsPlain addr
      → IsSilent cpu s
      → (regs_load32 cpu addr (regs_store32 devices cpu addr value s)).0 ≡ value
  regs_load32-regs_store32 devices cpu addr value s h q =
      let i = word_of addr in
      let stored = store_current-word cpu i value s in
      ap (λ t. (regs_load32 cpu addr t).0) (store32_plain devices cpu addr value s h q)
      ∙ load32_plain cpu addr (store_current cpu i value s) h (stored.1 ∙ q.0)
      ∙ stored.0

  -- A byte stored to a plain register that nothing listens to is loaded back, and the other bytes of
  -- the word are loaded as they were.
  pub regs_load8u-regs_store8 :
      (devices : Devices W) (cpu : Cpu) (addr b value : ℕ) (s : IoState W)
      → addr / 4 ≡ b / 4
      → IsPlain (addr / 4 * 4)
      → IsSilent cpu s
      → (regs_load8u cpu b (regs_store8 devices cpu addr value s)).0 ≡ (
          if b % 4 == addr % 4
          then value % 2 ^ 8
          else (file cpu s).words (word_of addr) / 2 ^ (8 * (b % 4)) % 2 ^ 8)
  unfolding regs_load8u regs_store8
  regs_load8u-regs_store8 devices cpu addr b value s e h q =
      let word = (file cpu s).words (word_of addr) in
      let merged = with_byte addr value word in
      let aligned : b / 4 * 4 ≡ addr / 4 * 4 = omega arith in
      let stored = regs_store32 devices cpu (addr / 4 * 4) merged s in
      ap (λ a. (regs_load32 cpu a stored).0 / 2 ^ (8 * (b % 4)) % 2 ^ 8) aligned
      ∙ ap (λ w. w / 2 ^ (8 * (b % 4)) % 2 ^ 8)
          (regs_load32-regs_store32 devices cpu (addr / 4 * 4) merged s h q)
      ∙ byte_replaced (addr % 4) (b % 4) value word (omega arith) (omega arith)

  store_current-machine :
      (cpu : Cpu) (i value : ℕ) (s : IoState W) → (store_current cpu i value s).machine ≡ s.machine
  unfolding store_current
  store_current-machine Cpu.arm7 i value s =
      if-holds (λ (t : IoState W). t.machine ≡ s.machine) (s.file7.words i == value) refl refl
  store_current-machine Cpu.arm9 i value s =
      if-holds (λ (t : IoState W). t.machine ≡ s.machine) (s.file9.words i == value) refl refl

  store_current-other :
      (cpu : Cpu) (i value : ℕ) (s : IoState W)
      → file (other cpu) (store_current cpu i value s) ≡ file (other cpu) s
  unfolding store_current
  store_current-other Cpu.arm7 i value s =
      if-holds (λ (t : IoState W). t.file9 ≡ s.file9) (s.file7.words i == value) refl refl
  store_current-other Cpu.arm9 i value s =
      if-holds (λ (t : IoState W). t.file7 ≡ s.file7) (s.file9.words i == value) refl refl

  all-IsSilent :
      (s : IoState W) → IsSilent Cpu.arm7 s → IsSilent Cpu.arm9 s → (cpu : Cpu) → IsSilent cpu s
  all-IsSilent s p q Cpu.arm7 = p
  all-IsSilent s p q Cpu.arm9 = q

  synced-readcbs :
      (cpu : Cpu) (m : Machine) (s : IoState W)
      → (file (other cpu) s).readcbs ≡ []
      → (file (other cpu) (record s { machine = m })).readcbs ≡ []
  synced-readcbs Cpu.arm7 m s e = e
  synced-readcbs Cpu.arm9 m s e = e

  store32_ipcsync :
      (devices : Devices W) (cpu : Cpu) (addr value : ℕ) (s : IoState W)
      → addr % 2 ^ 13 ≡ 0x180
      → (file cpu s).writecbs ≡ []
      → regs_store32 devices cpu addr value s
        ≡ store_current cpu
            (word_of addr)
            value
            (record s { machine = store_ipcsync cpu value s.machine })
  unfolding regs_store32 store32_arm7 store32_arm9
  store32_ipcsync devices Cpu.arm7 addr value s e q =
      let v = run_callbacks s.file7.writecbs addr value in
      let hit : store32_arm7 addr value s
          ≡ store_current Cpu.arm7 (word_of addr) v
              (record s { machine = store_ipcsync Cpu.arm7 v s.machine }) =
        ground arith in
      let synced : ℕ → IoState W = λ w. record s { machine = store_ipcsync Cpu.arm7 w s.machine } in
      hit
      ∙ ap (λ w. store_current Cpu.arm7 (word_of addr) w (synced w))
          (unheard s.file7.writecbs addr value q)
  store32_ipcsync devices Cpu.arm9 addr value s e q =
      let v = run_callbacks s.file9.writecbs addr value in
      let hit : store32_arm9 devices addr value s
          ≡ store_current Cpu.arm9 (word_of addr) v
              (record s { machine = store_ipcsync Cpu.arm9 v s.machine }) =
        ground arith in
      let synced : ℕ → IoState W = λ w. record s { machine = store_ipcsync Cpu.arm9 w s.machine } in
      hit
      ∙ ap (λ w. store_current Cpu.arm9 (word_of addr) w (synced w))
          (unheard s.file9.writecbs addr value q)

  load32_ipcsync :
      (cpu : Cpu) (addr : ℕ) (s : IoState W)
      → addr % 2 ^ 13 ≡ 0x180
      → (file cpu s).readcbs ≡ []
      → (regs_load32 cpu addr s).0 ≡ get_ipc (regs cpu s.machine)
  unfolding regs_load32 refreshed
  load32_ipcsync cpu addr s e q =
      let hit : refreshed cpu addr s ≡ get_ipc (regs cpu s.machine) = ground arith in
      unheard (file cpu s).readcbs addr (refreshed cpu addr s) q ∙ hit

  -- What a processor stores to bits 8 to 11 of IPCSYNC, at any address whose low 13 bits are 0x180,
  -- the other one loads from bits 0 to 3 at any such address, where nothing listens to the files.
  pub regs_load32-ipcsync :
      (devices : Devices W) (cpu : Cpu) (a b value : ℕ) (s : IoState W)
      → a % 2 ^ 13 ≡ 0x180
      → b % 2 ^ 13 ≡ 0x180
      → IsSilent Cpu.arm7 s
      → IsSilent Cpu.arm9 s
      → (regs_load32 (other cpu) b (regs_store32 devices cpu a value s)).0 % 2 ^ 4
        ≡ value / 2 ^ 8 % 2 ^ 4
  regs_load32-ipcsync devices cpu a b value s e f p q =
      let silent = all-IsSilent s p q in
      let t : IoState W = record s { machine = store_ipcsync cpu value s.machine } in
      let stored = store_current cpu (word_of a) value t in
      let heard =
        ap (λ k. k.readcbs) (store_current-other cpu (word_of a) value t)
        ∙ synced-readcbs cpu (store_ipcsync cpu value s.machine) s (silent (other cpu)).0 in
      ap (λ u. (regs_load32 (other cpu) b u).0 % 2 ^ 4)
        (store32_ipcsync devices cpu a value s e (silent cpu).1)
      ∙ ap (λ x. x % 2 ^ 4) (load32_ipcsync (other cpu) b stored f heard)
      ∙ ap (λ m. get_ipc (regs (other cpu) m) % 2 ^ 4)
          (store_current-machine cpu (word_of a) value t)
      ∙ ipcsync-other cpu value s.machine
