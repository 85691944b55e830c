-- ===== src/SubmitMap/Admission.antt =====
-- How an admission ends, and that it keeps the ledger well formed.
use suprminer_fpga.Prelude.{
  ℕ, ◌≤◌, ◌<◌, ◌≡◌, ◌⊎◌, inl, inr, true, false, ◌||◌, ◌==◌, if◌then◌else◌, arith, Bool-cases, ℤ,
  ◌≢◌, length-set,
}
use suprminer_fpga.SubmitMap.Slots.{first_free_cases}
use suprminer_fpga.SubmitMap.{
  Entry, Ticket, SubmitMap, free, queued, entry_at, put_entry, AdmitResult, blank_ticket, count_in,
  admit_slot, begin_generation, admit_id, admit, submit_map_size,
}
use suprminer_fpga.SubmitMap.Invariant.{Inv, entry_at-put_entry, begin_generation-Inv}

-- How an admission in a ledger that is at the ticket's generation can end.
pub admit_id_cases :
    (m : SubmitMap) (g : ℕ) (board fpga : ℤ)
    → Inv m
    → ((admit_id m g board fpga ≡ (m, blank_ticket, AdmitResult.exhausted))
        × (m.id_exhausted ≡ true))
      ⊎ ((admit_id m g board fpga ≡ (m, blank_ticket, AdmitResult.full))
          × (m.id_exhausted ≡ false)
          × (count_in free m.entries ≡ 0))
      ⊎ ((k : ℕ) × (k < submit_map_size)
          × (m.id_exhausted ≡ false)
          × ((entry_at m k).state ≡ free)
          × (admit_id m g board fpga ≡ (
            admit_slot m g board fpga k,
            record { slot = k; id = m.next_id; connection_generation = g; valid = true },
            AdmitResult.ready,
          )))
unfolding admit_id
admit_id_cases m g board fpga inv = elim (first_free_cases m.entries 0) [
  | inl (e, n) ↦ elim (Bool-cases m.id_exhausted) [
    | inl x ↦ inl (ground arith, x)
    | inr x ↦ inr (inl (ground arith, x, n))
  ]
  | inr (k, lt, e, f) ↦ elim (Bool-cases m.id_exhausted) [
    | inl x ↦ inl (ground arith, x)
    | inr x ↦ inr (inr (k, omega (arith, inv.size), x, f, ground (arith, inv.size)))
  ]
]

-- A new entry under the current generation repeats no identity: ids below `next_id` were issued.
admit_slot-Inv :
    (m : SubmitMap) (g : ℕ) (board fpga : ℤ) (k : ℕ)
    → g ≢ 0
    → m.id_generation ≡ g
    → m.id_exhausted ≡ false
    → k < submit_map_size
    → Inv m
    → Inv (admit_slot m g board fpga k)
unfolding admit_slot
admit_slot-Inv m g board fpga k nz same x lt inv = record {
  size = omega (arith, inv.size, length-set m.entries k entry);
  next_low = ground (arith, inv.next_low);
  next_high = ground (arith, inv.next_high);
  live = λ j. ground (arith, at_slot j, inv.live j, inv.next_low, inv.next_high);
  unique = λ i j. ground (arith, at_slot i, at_slot j, inv.unique i j, inv.live i, inv.live j);
}
  where
    entry : Entry
    entry = record {
      id = m.next_id;
      connection_generation = g;
      board = board;
      fpga = fpga;
      state = queued;
    }

    at_slot : (j : ℕ) → entry_at (put_entry m k entry) j ≡ (if k == j then entry else entry_at m j)
    at_slot j = entry_at-put_entry m k j entry inv lt

admit_id-Inv :
    (m : SubmitMap) (g : ℕ) (board fpga : ℤ)
    → g ≢ 0
    → m.id_generation ≡ g
    → Inv m
    → Inv (admit_id m g board fpga).0
admit_id-Inv m g board fpga nz same inv = elim (admit_id_cases m g board fpga inv) [
  | inl (e, _) ↦ rw e inv
  | inr (inl (e, _, _)) ↦ rw e inv
  | inr (inr (k, lt, x, _, e)) ↦ rw e (admit_slot-Inv m g board fpga k nz same x lt inv)
]

pub id_generation-begin_generation :
    (m : SubmitMap) (g : ℕ) → g ≢ 0 → (begin_generation m g).0.id_generation ≡ g
unfolding begin_generation
id_generation-begin_generation m g nz = ground arith

-- An admission under a generation that is not older keeps the invariant, on every outcome.
pub admit-Inv :
    (m : SubmitMap) (g : ℕ) (board fpga : ℤ) (t : Ticket)
    → m.id_generation ≤ g
    → Inv m
    → Inv (admit m g board fpga t).0
unfolding admit
admit-Inv m g board fpga t h inv = elim (Bool-cases (g == 0 || t.valid)) [
  | inl e ↦ rw e inv
  | inr e ↦
      let nz : g ≢ 0 = λ z. ground arith in
      rw e (
        admit_id-Inv _ g board fpga nz (id_generation-begin_generation m g nz)
          (begin_generation-Inv m g h inv))
]
