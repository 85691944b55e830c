-- ===== src/SubmitMap/Credits.antt =====
-- What each operation does to the numbers of queued and sent slots, the credits in use.
use suprminer_fpga.Prelude.{
  ℕ, ◌+◌, ◌≤◌, ◌<◌, ◌≡◌, ◌⊎◌, refl, inl, inr, true, false, some, none, ◌==◌, arith, Bool-cases, ℤ,
  ◌≢◌,
}
use suprminer_fpga.SubmitMap.Slots.{
  count_in-set, count_in-retire_sent, count_in_total, tally, take_scan_rest, find_awaiting,
}
use suprminer_fpga.SubmitMap.Invariant.{
  Inv, ticket_matches_slot, take_scan_hit, awaits_slot, entry_at-put_entry,
}
use suprminer_fpga.SubmitMap.{
  Entry, Ticket, SubmitMap, SlotState, MarkResult, free, queued, sent, free_entry, blank_ticket,
  entry_at, put_entry, count_state, queued_count, sent_count, count, begin_generation, admit_slot,
  ticket_matches, cancel, mark_sent, awaits, take_found, take, submit_map_size, submit_id_first,
}

-- The credits in use never exceed the number of slots.
pub count-le-size : (m : SubmitMap) → Inv m → count m ≤ submit_map_size
unfolding count
count-le-size m inv = omega (arith, count_in_total m.entries, inv.size)

-- Starting another nonzero generation keeps every queued credit and releases every sent one; it
-- answers how many it released, and ids start again from the first.
pub begin_generation_credits :
    (m : SubmitMap) (g : ℕ)
    → g ≢ 0
    → g ≢ m.id_generation
    → (queued_count (begin_generation m g).0 ≡ queued_count m)
      × (sent_count (begin_generation m g).0 ≡ 0)
      × ((begin_generation m g).1 ≡ sent_count m)
      × ((begin_generation m g).0.next_id ≡ submit_id_first)
      × ((begin_generation m g).0.id_exhausted ≡ false)
unfolding begin_generation
begin_generation_credits m g nz new = ground (arith, count_in-retire_sent m.entries)

pub begin_generation_queued :
    (m : SubmitMap) (g : ℕ) → queued_count (begin_generation m g).0 ≡ queued_count m
unfolding begin_generation
begin_generation_queued m g = ground (arith, count_in-retire_sent m.entries)

-- A write at slot `i` changes the two counts by the old and the new entry.
put_entry_credits :
    (s : SlotState) (m : SubmitMap) (i : ℕ) (v : Entry)
    → Inv m
    → i < submit_map_size
    → count_state (put_entry m i v) s + tally s (entry_at m i) ≡ count_state m s + tally s v
put_entry_credits s m i v inv h = count_in-set s m.entries i v (omega (arith, inv.size))

-- In a well-formed ledger, a ticket that matches its queued slot is cancelled: its queued credit is
-- given back, no sent credit changes, the ticket is spent, and its slot is free.
pub cancel_credits :
    (m : SubmitMap) (t : Ticket)
    → Inv m
    → ticket_matches m t queued ≡ true
    → ((cancel m t).2 ≡ true)
      × ((cancel m t).1 ≡ blank_ticket)
      × (queued_count (cancel m t).0 + 1 ≡ queued_count m)
      × (sent_count (cancel m t).0 ≡ sent_count m)
      × ((entry_at (cancel m t).0 t.slot).state ≡ free)
unfolding cancel
cancel_credits m t inv h = ground (
  arith,
  ticket_matches_slot m t queued h,
  put_entry_credits queued m t.slot free_entry inv,
  put_entry_credits sent m t.slot free_entry inv,
  entry_at-put_entry m t.slot t.slot free_entry inv,
)

-- In a well-formed ledger, the completed send of a ticket that matches its queued slot spends the
-- ticket and moves the credit from queued to sent when the ticket is of the current generation, and
-- releases it when the ticket is of a retired one.
pub mark_sent_credits :
    (m : SubmitMap) (t : Ticket)
    → Inv m
    → ticket_matches m t queued ≡ true
    → ((mark_sent m t).1 ≡ blank_ticket)
      × (queued_count (mark_sent m t).0 + 1 ≡ queued_count m)
      × (((t.connection_generation ≡ m.id_generation)
            × ((mark_sent m t).2 ≡ MarkResult.ready)
            × (sent_count (mark_sent m t).0 ≡ sent_count m + 1))
          ⊎ ((t.connection_generation ≢ m.id_generation)
              × ((mark_sent m t).2 ≡ MarkResult.retired)
              × (sent_count (mark_sent m t).0 ≡ sent_count m)))
unfolding mark_sent
mark_sent_credits m t inv h =
    let (lt, st, _, _) = ticket_matches_slot m t queued h in
    let sent_entry : Entry = record (entry_at m t.slot) { state = sent } in
    elim (Bool-cases (t.connection_generation == m.id_generation)) [
      | inl e ↦
          rw (h, e)
            (
              refl,
              ground (arith, put_entry_credits queued m t.slot sent_entry inv lt),
              inl (
                ground arith,
                refl,
                ground (arith, put_entry_credits sent m t.slot sent_entry inv lt),
              ),
            )
      | inr e ↦
          rw (h, e)
            (
              refl,
              ground (arith, put_entry_credits queued m t.slot free_entry inv lt),
              inr (
                ground arith,
                refl,
                ground (arith, put_entry_credits sent m t.slot free_entry inv lt),
              ),
            )
    ]

-- A ticket without a queued slot of its identity cancels nothing and sends nothing.
pub unmatched_ticket :
    (m : SubmitMap) (t : Ticket)
    → ticket_matches m t queued ≡ false
    → (cancel m t ≡ (m, t, false)) × (mark_sent m t ≡ (m, t, MarkResult.invalid))
unfolding cancel mark_sent
unmatched_ticket m t h = (rw h, rw h)

-- How `take` ends: some slot held a sent entry of exactly this identity, which is returned and
-- alone cleared, or no slot did and nothing changes.
pub take_cases :
    (m : SubmitMap) (g id : ℕ)
    → Inv m
    → ((take m g id ≡ (m, none)) × ((k : ℕ) → awaits g id (entry_at m k) ≡ false))
      ⊎ ((k : ℕ) × (k < submit_map_size)
          × (awaits g id (entry_at m k) ≡ true)
          × (take m g id ≡ (put_entry m k free_entry, some (entry_at m k))))
unfolding take take_found
take_cases m g id inv = elim (find_awaiting g id m.entries) [
  | inl absent ↦
      inl (ground (arith, take_scan_rest g id m.entries 0 submit_map_size absent), absent)
  | inr (k, _, a) ↦
      let lt = awaits_slot m g id k inv a in
      let scan = take_scan_hit m g id k inv a in inr (k, lt, a, ground (arith, inv.live k, scan))
]

-- In a well-formed ledger, a response that is taken answers a sent entry of the generation and id
-- asked for, and releases one sent credit and no queued one.
pub take_credits :
    (m : SubmitMap) (g id : ℕ) {e : Entry}
    → Inv m
    → (take m g id).1 ≡ some e
    → (e.state ≡ sent)
      × (e.connection_generation ≡ g)
      × (e.id ≡ id)
      × (sent_count (take m g id).0 + 1 ≡ sent_count m)
      × (queued_count (take m g id).0 ≡ queued_count m)
take_credits m g id inv h = elim (take_cases m g id inv) [
  | inl (x, _) ↦ absurd (ground arith)
  | inr (k, lt, a, x) ↦ ground (
    arith,
    put_entry_credits queued m k free_entry inv lt,
    put_entry_credits sent m k free_entry inv lt,
  )
]

-- In a well-formed ledger, a response to the identity of a slot that is still queued is refused and
-- changes nothing.
pub take_queued :
    (m : SubmitMap) (k : ℕ)
    → Inv m
    → (entry_at m k).state ≡ queued
    → take m (entry_at m k).connection_generation (entry_at m k).id ≡ (m, none)
take_queued m k inv q =
    elim (take_cases m (entry_at m k).connection_generation (entry_at m k).id inv) [
      | inl (x, _) ↦ x
      | inr (j, lt, a, _) ↦ absurd (ground (arith, inv.unique j k))
    ]

pub admit_slot_credits :
    (m : SubmitMap) (g : ℕ) (board fpga : ℤ) (k : ℕ)
    → Inv m
    → k < submit_map_size
    → (entry_at m k).state ≡ free
    → (queued_count (admit_slot m g board fpga k) ≡ queued_count m + 1)
      × (sent_count (admit_slot m g board fpga k) ≡ sent_count m)
unfolding admit_slot
admit_slot_credits m g board fpga k inv lt f =
    let e : Entry = record {
      id = m.next_id;
      connection_generation = g;
      board = board;
      fpga = fpga;
      state = queued;
    } in
    ground (arith, put_entry_credits queued m k e inv lt, put_entry_credits sent m k e inv lt)
