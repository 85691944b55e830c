-- ===== src/SubmitMap/Invariant.antt =====
-- The ledger's invariant and that every operation keeps it. Generations do not go back: a caller
-- admits under the authenticated transport, whose generations only grow.
use suprminer_fpga.Prelude.{
  ℕ, ◌≤◌, ◌<◌, ◌≡◌, ◌⊎◌, inl, inr, Bool, true, false, some, ◌||◌, ltb, ◌==◌, if◌then◌else◌, arith,
  length, Bool-cases, int_max, ◌≢◌, get_or-replicate, length-replicate, length-set, get_or_out,
}
use suprminer_fpga.SubmitMap.Slots.{
  get_or-set, get_or-retire_sent, length-retire_sent, take_scan_rest, take_scan_unique,
  find_awaiting,
}
use suprminer_fpga.SubmitMap.{
  Entry, Ticket, SubmitMap, SlotState, free, queued, sent, free_entry, entry_at, put_entry, init,
  begin_generation, ticket_matches, cancel, mark_sent, awaits, take_scan, take_found, take,
  submit_map_size, submit_id_first,
}

abbrev pub used : Entry → Bool
used e = elim e.state [ free ↦ false | queued ↦ true | sent ↦ true ]

-- What holds of one slot's entry in the ledger `m`.
pub record IsLive (m : SubmitMap) (e : Entry) : Type 0 where
  pub current : e.state ≡ sent → e.connection_generation ≡ m.id_generation
  pub known : used e ≡ true → e.connection_generation ≤ m.id_generation
  pub nonzero : used e ≡ true → e.connection_generation ≢ 0
  pub low : used e ≡ true → submit_id_first ≤ e.id
  pub high : used e ≡ true → e.id ≤ int_max
  pub issued :
      used e ≡ true
      → e.connection_generation ≡ m.id_generation
      → (e.id < m.next_id) ⊎ (m.id_exhausted ≡ true)

pub record Inv (m : SubmitMap) : Type 0 where
  pub size : length m.entries ≡ submit_map_size
  pub next_low : submit_id_first ≤ m.next_id
  pub next_high : m.next_id ≤ int_max
  pub live : (i : ℕ) → IsLive m (entry_at m i)
  pub unique :
      (i j : ℕ)
      → used (entry_at m i) ≡ true
      → used (entry_at m j) ≡ true
      → (entry_at m i).id ≡ (entry_at m j).id
      → (entry_at m i).connection_generation ≡ (entry_at m j).connection_generation
      → i ≡ j

free-IsLive : (m : SubmitMap) → IsLive m free_entry
free-IsLive m = ground arith

pub init-Inv : Inv init
unfolding init
init-Inv = record {
  size = length-replicate submit_map_size free_entry;
  next_low = omega arith;
  next_high = omega arith;
  live = λ i. ground (arith, get_or-replicate submit_map_size i free_entry);
  unique = λ i j. ground (arith, get_or-replicate submit_map_size i free_entry);
}

pub entry_at-put_entry :
    (m : SubmitMap) (i j : ℕ) (v : Entry)
    → Inv m
    → i < submit_map_size
    → entry_at (put_entry m i v) j ≡ (if i == j then v else entry_at m j)
entry_at-put_entry m i j v inv h = get_or-set m.entries i j v free_entry (omega (arith, inv.size))

-- A write keeps the invariant when what it writes is live and repeats no identity of another slot.
pub put_entry-Inv :
    (m : SubmitMap) (i : ℕ) (v : Entry)
    → Inv m
    → i < submit_map_size
    → IsLive m v
    → ((j : ℕ)
        → i ≢ j
        → used v ≡ true
        → used (entry_at m j) ≡ true
        → v.id ≡ (entry_at m j).id
        → v.connection_generation ≡ (entry_at m j).connection_generation
        → ⊥)
    → Inv (put_entry m i v)
put_entry-Inv m i v inv h alive fresh = record {
  size = omega (arith, inv.size, length-set m.entries i v);
  next_low = inv.next_low;
  next_high = inv.next_high;
  live = λ j. ground (arith, entry_at-put_entry m i j v inv h, inv.live j, alive);
  unique = λ j k. ground (
    arith,
    entry_at-put_entry m i j v inv h,
    entry_at-put_entry m i k v inv h,
    inv.unique j k,
    fresh j,
    fresh k,
  );
}

pub clear-Inv :
    (m : SubmitMap) (i : ℕ) → Inv m → i < submit_map_size → Inv (put_entry m i free_entry)
clear-Inv m i inv h = put_entry-Inv m i free_entry inv h (free-IsLive m) (λ j _ u. cc)

-- Starting a generation that is not older keeps the invariant.
pub begin_generation-Inv :
    (m : SubmitMap) (g : ℕ) → m.id_generation ≤ g → Inv m → Inv (begin_generation m g).0
unfolding begin_generation
begin_generation-Inv m g h inv = elim (Bool-cases (g == 0 || m.id_generation == g)) [
  | inl same ↦ rw same inv
  | inr new ↦ rw new (record {
    size = omega (arith, inv.size, length-retire_sent m.entries);
    next_low = omega arith;
    next_high = omega arith;
    live = λ i. ground (arith, get_or-retire_sent m.entries i, inv.live i);
    unique = λ i j.
        ground
          (arith, get_or-retire_sent m.entries i, get_or-retire_sent m.entries j, inv.unique i j);
  })
]

pub ticket_matches_slot :
    (m : SubmitMap) (t : Ticket) (s : SlotState)
    → ticket_matches m t s ≡ true
    → (t.slot < submit_map_size)
      × ((entry_at m t.slot).state ≡ s)
      × ((entry_at m t.slot).id ≡ t.id)
      × ((entry_at m t.slot).connection_generation ≡ t.connection_generation)
unfolding ticket_matches
ticket_matches_slot m t s h = ground arith

pub cancel-Inv : (m : SubmitMap) (t : Ticket) → Inv m → Inv (cancel m t).0
unfolding cancel
cancel-Inv m t inv = elim (Bool-cases (ticket_matches m t queued)) [
  | inl h ↦ rw h (clear-Inv m t.slot inv (ticket_matches_slot m t queued h).0)
  | inr h ↦ rw h inv
]

pub send-Inv :
    (m : SubmitMap) (i : ℕ)
    → Inv m
    → i < submit_map_size
    → (entry_at m i).state ≡ queued
    → (entry_at m i).connection_generation ≡ m.id_generation
    → Inv (put_entry m i (record (entry_at m i) { state = sent }))
send-Inv m i inv h q g =
    put_entry-Inv m i _ inv h (ground (arith, inv.live i)) λ j. ground (arith, inv.unique i j)

pub mark_sent-Inv : (m : SubmitMap) (t : Ticket) → Inv m → Inv (mark_sent m t).0
unfolding mark_sent
mark_sent-Inv m t inv = elim (Bool-cases (ticket_matches m t queued)) [
  | inl h ↦
      let (lt, st, _, gen) = ticket_matches_slot m t queued h in
      elim (Bool-cases (t.connection_generation == m.id_generation)) [
        | inl e ↦ rw (h, e) (send-Inv m t.slot inv lt st (ground arith))
        | inr e ↦ rw (h, e) (clear-Inv m t.slot inv lt)
      ]
  | inr h ↦ rw h inv
]

-- A sent identity stands in one slot, so the scan of `take` ends at it.
pub take_scan_hit :
    (m : SubmitMap) (g id k : ℕ)
    → Inv m
    → awaits g id (entry_at m k) ≡ true
    → take_scan g id m.entries 0 submit_map_size ≡ some k
take_scan_hit m g id k inv h = ground (arith, take_scan_unique g id m.entries 0 k only h)
  where
    only : (j : ℕ) → awaits g id (entry_at m j) ≡ true → j ≡ k
    only j a = ground (arith, inv.unique j k)

pub awaits_slot :
    (m : SubmitMap) (g id k : ℕ) → Inv m → awaits g id (entry_at m k) ≡ true → k < submit_map_size
awaits_slot m g id k inv h = ground (arith, get_or_out m.entries k free_entry, inv.size)

pub take-Inv : (m : SubmitMap) (g id : ℕ) → Inv m → Inv (take m g id).0
unfolding take take_found
take-Inv m g id inv = elim (Bool-cases (g == 0 || ltb id submit_id_first || ltb int_max id)) [
  | inl h ↦ rw h inv
  | inr h ↦ rw h (elim (find_awaiting g id m.entries) [
    | inl none_here ↦ rw (take_scan_rest g id m.entries 0 submit_map_size none_here, take_found) inv
    | inr (k, lt, a) ↦
        rw (take_scan_hit m g id k inv a, take_found)
          (ground (arith, awaits_slot m g id k inv a, clear-Inv m k inv))
  ])
]
