-- ===== src/SubmitMap/Lifecycle.antt =====
-- A share from admission over the completed send to its response.
use suprminer_fpga.Prelude.{
  ℕ, ◌+◌, ◌≤◌, ◌<◌, ◌≡◌, refl, inl, inr, true, false, some, none, ◌||◌, ◌==◌, if◌then◌else◌, arith,
  Bool-cases, ℤ, int_max, ◌∙◌,
}
use suprminer_fpga.SubmitMap.Slots.{count_in_total}
use suprminer_fpga.SubmitMap.Invariant.{
  Inv, begin_generation-Inv, ticket_matches_slot, entry_at-put_entry, clear-Inv, send-Inv,
}
use suprminer_fpga.SubmitMap.Admission.{admit_id_cases, id_generation-begin_generation}
use suprminer_fpga.SubmitMap.Credits.{take_cases, admit_slot_credits, begin_generation_queued}
use suprminer_fpga.SubmitMap.{
  Entry, Ticket, SubmitMap, SlotState, AdmitResult, MarkResult, free, queued, sent, free_entry,
  entry_at, put_entry, queued_count, count, begin_generation, admit_slot, admit_id, admit,
  ticket_matches, mark_sent, awaits, take, submit_map_size, submit_id_first,
}

abbrev pub entry_for : ℕ → ℕ → ℤ → ℤ → SlotState → Entry
entry_for g id board fpga s = record {
  id = id;
  connection_generation = g;
  board = board;
  fpga = fpga;
  state = s;
}

-- An admission that succeeds in a ledger at its generation.
admit_id_ready :
    (m : SubmitMap) (g : ℕ) (board fpga : ℤ)
    → Inv m
    → (admit_id m g board fpga).2 ≡ AdmitResult.ready
    → (k : ℕ) × (k < submit_map_size)
      × (m.id_exhausted ≡ false)
      × ((entry_at m k).state ≡ free)
      × (admit_id m g board fpga ≡ (
        admit_slot m g board fpga k,
        record { slot = k; id = m.next_id; connection_generation = g; valid = true },
        AdmitResult.ready,
      ))
admit_id_ready m g board fpga inv h = elim (admit_id_cases m g board fpga inv) [
  | inl (e, _) ↦ absurd (ground arith)
  | inr (inl (e, _, _)) ↦ absurd (ground arith)
  | inr (inr found) ↦ found
]

abbrev pub issued_ticket : SubmitMap → ℕ → ℕ → Ticket
issued_ticket b g k = record { slot = k; id = b.next_id; connection_generation = g; valid = true }

-- A successful admission writes a free slot of the ledger that `begin_generation` leaves.
pub admit_ready_slot :
    (m : SubmitMap) (g : ℕ) (board fpga : ℤ) (t : Ticket)
    → Inv m
    → m.id_generation ≤ g
    → (admit m g board fpga t).2 ≡ AdmitResult.ready
    → let b = (begin_generation m g).0 in
      (k : ℕ) × (k < submit_map_size)
      × ((entry_at b k).state ≡ free)
      × (admit m g board fpga t
          ≡ (admit_slot b g board fpga k, issued_ticket b g k, AdmitResult.ready))
      × Inv b
      × (b.id_generation ≡ g)
unfolding admit
admit_ready_slot m g board fpga t inv h r = elim (Bool-cases (g == 0 || t.valid)) [
  | inl bad ↦ absurd (ground arith)
  | inr fine ↦
      let binv = begin_generation-Inv m g h inv in
      let (k, lt, x, f, d) =
        admit_id_ready (begin_generation m g).0 g board fpga binv (ground arith) in
      (k, lt, f, rw fine d, binv, id_generation-begin_generation m g (λ z. ground arith))
]

entry_at-admit_slot :
    (b : SubmitMap) (g : ℕ) (board fpga : ℤ) (k j : ℕ)
    → Inv b
    → k < submit_map_size
    → entry_at (admit_slot b g board fpga k) j
      ≡ (if k == j then entry_for g b.next_id board fpga queued else entry_at b j)
unfolding admit_slot
entry_at-admit_slot b g board fpga k j inv lt =
    entry_at-put_entry b k j (entry_for g b.next_id board fpga queued) inv lt

-- From a well-formed ledger and for a generation no older than its own, a successful admission
-- leaves a valid ticket that matches its queued slot, the entry that was asked for under an id in
-- the range of a positive `int`, and one more queued credit.
pub admit_ready :
    (m : SubmitMap) (g : ℕ) (board fpga : ℤ) (t : Ticket)
    → Inv m
    → m.id_generation ≤ g
    → (admit m g board fpga t).2 ≡ AdmitResult.ready
    → let n = (admit m g board fpga t).0 in
      let u = (admit m g board fpga t).1 in
      (ticket_matches n u queued ≡ true)
      × (entry_at n u.slot ≡ entry_for g u.id board fpga queued)
      × (submit_id_first ≤ u.id)
      × (u.id ≤ int_max)
      × (queued_count n ≡ queued_count m + 1)
      × (n.id_generation ≡ g)
      × (u.connection_generation ≡ g)
unfolding ticket_matches
admit_ready m g board fpga t inv h r =
    let b = (begin_generation m g).0 in
    let (k, lt, f, e, binv, same) = admit_ready_slot m g board fpga t inv h r in
    let here = entry_at-admit_slot b g board fpga k k binv lt in
    rw e (
      ground (arith, here),
      ground (arith, here),
      binv.next_low,
      binv.next_high,
      omega (arith, (admit_slot_credits b g board fpga k binv lt f).0, begin_generation_queued m g),
      unfold admit_slot in same,
      refl,
    )

-- From a well-formed ledger and for a generation no older than its own, an admission is refused as
-- full only when all slots hold a credit, and then it has changed nothing beyond starting the
-- generation.
pub admit_full :
    (m : SubmitMap) (g : ℕ) (board fpga : ℤ) (t : Ticket)
    → Inv m
    → m.id_generation ≤ g
    → (admit m g board fpga t).2 ≡ AdmitResult.full
    → ((admit m g board fpga t).0 ≡ (begin_generation m g).0)
      × (count (admit m g board fpga t).0 ≡ submit_map_size)
unfolding admit count
admit_full m g board fpga t inv h r = elim (Bool-cases (g == 0 || t.valid)) [
  | inl bad ↦ absurd (ground arith)
  | inr fine ↦
      let b : SubmitMap = (begin_generation m g).0 in
      let binv = begin_generation-Inv m g h inv in
      elim (admit_id_cases b g board fpga binv) [
        | inl (e, _) ↦ absurd (ground arith)
        | inr (inl (e, _, z)) ↦
            rw (fine, e) (refl, omega (arith, count_in_total b.entries, binv.size))
        | inr (inr (k, _, _, _, e)) ↦ absurd (ground arith)
      ]
]

take_sent :
    (n : SubmitMap) (k g id : ℕ)
    → Inv n
    → awaits g id (entry_at n k) ≡ true
    → take n g id ≡ (put_entry n k free_entry, some (entry_at n k))
take_sent n k g id inv a = elim (take_cases n g id inv) [
  | inl (_, absent) ↦ absurd (ground (arith, absent k))
  | inr (j, lt, b, e) ↦ let same : j ≡ k = ground (arith, inv.unique j k) in rw (← same) e
]

-- No other slot holds the identity of a slot that is cleared.
take_cleared :
    (n : SubmitMap) (k g id : ℕ)
    → Inv n
    → k < submit_map_size
    → awaits g id (entry_at n k) ≡ true
    → take (put_entry n k free_entry) g id ≡ (put_entry n k free_entry, none)
take_cleared n k g id inv lt a =
    elim (take_cases (put_entry n k free_entry) g id (clear-Inv n k inv lt)) [
      | inl (e, _) ↦ e
      | inr (j, _, b, _) ↦
          absurd (ground (arith, inv.unique j k, entry_at-put_entry n k j free_entry inv lt))
    ]

-- In a well-formed ledger, sending a queued share of the current generation and then taking its
-- response returns the share's own entry, and a second response to it is refused.
pub send_then_take :
    (m : SubmitMap) (t : Ticket)
    → Inv m
    → ticket_matches m t queued ≡ true
    → t.connection_generation ≡ m.id_generation
    → let n = (mark_sent m t).0 in
      let after = take n t.connection_generation t.id in
      ((mark_sent m t).2 ≡ MarkResult.ready)
      × (after.1 ≡ some (record (entry_at m t.slot) { state = sent }))
      × ((take after.0 t.connection_generation t.id).1 ≡ none)
unfolding mark_sent
send_then_take m t inv h cur =
    let (lt, st, id, gen) = ticket_matches_slot m t queued h in
    let sent_entry : Entry = record (entry_at m t.slot) { state = sent } in
    let n : SubmitMap = put_entry m t.slot sent_entry in
    let ninv : Inv n = send-Inv m t.slot inv lt st (gen ∙ cur) in
    let here : entry_at n t.slot ≡ sent_entry =
      ground (arith, entry_at-put_entry m t.slot t.slot sent_entry inv lt) in
    let waits : awaits t.connection_generation t.id (entry_at n t.slot) ≡ true =
      rw here (ground arith) in
    let first = take_sent n t.slot t.connection_generation t.id ninv waits in
    let second = take_cleared n t.slot t.connection_generation t.id ninv lt waits in
    ground (arith, h, here, first, second)
