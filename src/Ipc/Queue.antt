-- ===== src/Ipc/Queue.antt =====
-- One direction of the communication against a bounded queue.
use ndse_core.Base.{ℕ, ◌<◌, ◌≡◌, ◌≢◌, refl, ap, ap₂, ◌∙◌, sym, arith, ltb}
use ndse_core.Base.{List, [], ◌∷◌, ◌++◌, length, Option, none, some, if◌then◌else◌}
use ndse_core.Fifo.Refine.{IsValid}
use ndse_core.Ipc.{Cpu, Machine, regs, other, store_ipcfifosend, transfer_load32}
use ndse_core.Ipc.Link.{pending, send_refines, receive_refines}

-- The sender writes to IPCFIFOSEND, or the receiver reads the word at 0x04100000.
pub data Op : Type 0 where
  send : ℕ → Op
  receive : Op

-- What a script does to the machine, and what its reads returned.
unfoldable pub run : Cpu → List Op → Machine → List (Option ℕ) × Machine
run cpu [] m = ([], m)
run cpu (Op.send v ∷ ops) m = run cpu ops (store_ipcfifosend cpu v m)
run cpu (Op.receive ∷ ops) m =
    let r = transfer_load32 (other cpu) 0x04100000 m in
    let rest = run cpu ops r.1 in (r.0 ∷ rest.0, rest.1)

-- The specification: a queue of at most 16 words. `none` is an overflow or an underflow.
unfoldable pub serve : List Op → List ℕ → Option (List (Option ℕ) × List ℕ)
serve [] q = some ([], q)
serve (Op.send v ∷ ops) q =
    let rest = serve ops (q ++ (v ∷ [])) in if ltb (length q) 16 then rest else none
serve (Op.receive ∷ ops) [] = none
serve (Op.receive ∷ ops) (v ∷ q) = elim (serve ops q) [
  | none ↦ none
  | some (replies, q') ↦ some (some v ∷ replies, q')
]

serve-send :
    (w : ℕ) (ops : List Op) (q : List ℕ) {r : List (Option ℕ) × List ℕ}
    → serve (Op.send w ∷ ops) q ≡ some r
    → (length q < 16) × (serve ops (q ++ (w ∷ [])) ≡ some r)
unfolding serve
serve-send w ops q h = ground arith

ne_nil_of-cons : {x : ℕ} {xs ys : List ℕ} → ys ≡ x ∷ xs → ys ≢ []
ne_nil_of-cons e h = cc

-- What a served read tells of the queue, and of the replies after it.
record Served (ops : List Op) (q : List ℕ) (replies : List (Option ℕ)) (q' : List ℕ) : Type 0 where
  head : ℕ
  rest : List ℕ
  later : List (Option ℕ)
  nonempty : q ≡ head ∷ rest
  served : serve ops rest ≡ some (later, q')
  first : replies ≡ some head ∷ later

serve-receive :
    (ops : List Op) (q : List ℕ) {replies : List (Option ℕ)} {q' : List ℕ}
    → serve (Op.receive ∷ ops) q ≡ some (replies, q')
    → Served ops q replies q'
unfolding serve
serve-receive ops [] h = absurd (cc)
serve-receive ops (v ∷ q) {replies} {q'} h = go (serve ops q) refl h
  where
    go :
        (o : Option (List (Option ℕ) × List ℕ))
        → serve ops q ≡ o
        → ◌≡◌ {A = Option (List (Option ℕ) × List ℕ)}
            (elim o [ none ↦ none | some (rs, q'') ↦ some (some v ∷ rs, q'') ])
            (some (replies, q'))
        → Served ops (v ∷ q) replies q'
    go none e k = absurd (cc)
    go (some (rs, q'')) e k = record {
      head = v;
      rest = q;
      later = rs;
      nonempty = refl;
      served = e ∙ ground arith;
      first = ground arith;
    }

-- A script that the bounded queue serves gets the same replies from the machine, in the same order,
-- leaves the same values pending, and never stops in the debugger.
pub run_refines :
    (cpu : Cpu) (ops : List Op) (m : Machine) {replies : List (Option ℕ)} {q : List ℕ}
    → IsValid (regs cpu m).ipc_fifo
    → serve ops (pending cpu m) ≡ some (replies, q)
    → ((run cpu ops m).0 ≡ replies)
      × (pending cpu (run cpu ops m).1 ≡ q)
      × ((run cpu ops m).1.breaks ≡ m.breaks)
unfolding run serve
run_refines cpu [] m v h = ground arith
run_refines cpu (Op.send w ∷ ops) m v h =
    let (room, next) = serve-send w ops (pending cpu m) h in
    let (linked, appended, quiet, _) = send_refines cpu w m v room in
    let (same, left, calm) =
      run_refines cpu ops (store_ipcfifosend cpu w m) linked.valid
        (ap (serve ops) appended ∙ next) in
    (same, left, calm ∙ quiet)
run_refines cpu (Op.receive ∷ ops) m v h =
    let s = serve-receive ops (pending cpu m) h in
    let r = receive_refines cpu 0x04100000 m refl v (ne_nil_of-cons s.nonempty) in
    let e : r.value ∷ pending cpu (transfer_load32 (other cpu) 0x04100000 m).1 ≡ s.head ∷ s.rest =
      sym r.oldest ∙ s.nonempty in
    let (same, left, calm) =
      run_refines cpu ops (transfer_load32 (other cpu) 0x04100000 m).1 r.linked.valid
        (ap (serve ops) (cc e) ∙ s.served) in
    (
      ap₂ ◌∷◌ r.returned same ∙ ap (λ x. some x ∷ s.later) (cc e) ∙ sym s.first,
      left,
      calm ∙ r.no_break,
    )
