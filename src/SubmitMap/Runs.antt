-- ===== src/SubmitMap/Runs.antt =====
-- Runs of the ledger, and concrete cases of its theorems.
use suprminer_fpga.Prelude.{
  ℕ, zero, suc, ◌+◌, ◌≤◌, ◌≡◌, ◌≢◌, ◌⊎◌, refl, true, false, ltb, if◌then◌else◌, List, [], ◌∷◌, some,
  none, length, get_or, arith, pos, int_max,
}
use suprminer_fpga.SubmitMap.Invariant.{Inv, init-Inv, mark_sent-Inv}
use suprminer_fpga.SubmitMap.Admission.{admit-Inv}
use suprminer_fpga.SubmitMap.Credits.{mark_sent_credits, take_credits}
use suprminer_fpga.SubmitMap.Lifecycle.{entry_for, admit_ready, admit_full, send_then_take}
use suprminer_fpga.SubmitMap.Tickets.{here, Owned}
use suprminer_fpga.SubmitMap.Ownership.{Step, Reach, Reach-Owned, owned_ticket_usable}
use suprminer_fpga.SubmitMap.{
  Entry, Ticket, SubmitMap, AdmitResult, MarkResult, queued, sent, free_entry, blank_ticket,
  entry_at, init, count_in, retire_sent, begin_generation, first_free, admit_slot, admit_id, admit,
  ticket_matches, cancel, mark_sent, take_scan, take_found, take, queued_count, sent_count, count,
  submit_map_size, submit_id_first,
}

-- One share of generation 7, before and after it is sent.
abbrev one_queued : SubmitMap
one_queued = (admit init 7 (pos 0) (pos 1) blank_ticket).0

abbrev first_ticket : Ticket
first_ticket = record { slot = 0; id = 4; connection_generation = 7; valid = true }

abbrev one_sent : SubmitMap
one_sent = (mark_sent one_queued first_ticket).0

first_admission :
    admit init 7 (pos 0) (pos 1) blank_ticket ≡ (one_queued, first_ticket, AdmitResult.ready)
unfolding admit admit_id admit_slot begin_generation first_free retire_sent init count_in
first_admission = refl

first_admission_ready : (admit init 7 (pos 0) (pos 1) blank_ticket).2 ≡ AdmitResult.ready
first_admission_ready = rw first_admission refl

from_init : init.id_generation ≤ 7
unfolding init
from_init = omega arith

one_queued-Inv : Inv one_queued
one_queued-Inv = admit-Inv init 7 (pos 0) (pos 1) blank_ticket from_init init-Inv

first_ticket_matches : ticket_matches one_queued first_ticket queued ≡ true
unfolding ticket_matches admit admit_id admit_slot begin_generation first_free retire_sent init
    count_in
first_ticket_matches = refl

first_ticket_current : first_ticket.connection_generation ≡ one_queued.id_generation
unfolding admit admit_id admit_slot begin_generation first_free retire_sent init count_in
first_ticket_current = refl

one_queued_state : (entry_at one_queued 0).state ≡ queued
unfolding admit admit_id admit_slot begin_generation first_free retire_sent init count_in
one_queued_state = refl

one_sent-Inv : Inv one_sent
one_sent-Inv = mark_sent-Inv one_queued first_ticket one_queued-Inv

abbrev first_response : Entry
first_response = entry_for 7 4 (pos 0) (pos 1) sent

response_found : (take one_sent 7 4).1 ≡ some first_response
unfolding take take_found take_scan mark_sent ticket_matches admit admit_id admit_slot
    begin_generation first_free retire_sent init count_in
response_found = refl

-- A response of another generation is refused.
response_refused : (take one_sent 8 4).1 ≡ none
unfolding take take_found take_scan mark_sent ticket_matches admit admit_id admit_slot
    begin_generation first_free retire_sent init count_in
response_refused = refl

one_admitted : Reach (record { ledger = one_queued; tickets = first_ticket ∷ [] })
one_admitted =
    rw (← ticket_is)
      (Reach.next Reach.start (Step.admitted 7 (pos 0) (pos 1) from_init first_admission_ready))
  where
    ticket_is : (admit init 7 (pos 0) (pos 1) blank_ticket).1 ≡ first_ticket
    ticket_is = rw first_admission refl

Reach-Owned_example : Owned (record { ledger = one_queued; tickets = first_ticket ∷ [] })
Reach-Owned_example = Reach-Owned one_admitted

owned_ticket_usable_example :
    ((cancel one_queued first_ticket).2 ≡ true)
    × ((mark_sent one_queued first_ticket).2 ≢ MarkResult.invalid)
    × (count one_queued ≤ submit_map_size)
owned_ticket_usable_example = owned_ticket_usable one_admitted here

send_then_take_example :
    let after = take one_sent 7 4 in
    ((mark_sent one_queued first_ticket).2 ≡ MarkResult.ready)
    × (after.1 ≡ some (record (entry_at one_queued 0) { state = sent }))
    × ((take after.0 7 4).1 ≡ none)
send_then_take_example =
    send_then_take one_queued first_ticket one_queued-Inv first_ticket_matches first_ticket_current

admit_ready_example :
    let n = (admit init 7 (pos 0) (pos 1) blank_ticket).0 in
    let u = (admit init 7 (pos 0) (pos 1) blank_ticket).1 in
    (ticket_matches n u queued ≡ true)
    × (entry_at n u.slot ≡ entry_for 7 u.id (pos 0) (pos 1) queued)
    × (submit_id_first ≤ u.id)
    × (u.id ≤ int_max)
    × (queued_count n ≡ queued_count init + 1)
    × (n.id_generation ≡ 7)
    × (u.connection_generation ≡ 7)
admit_ready_example =
    admit_ready init 7 (pos 0) (pos 1) blank_ticket init-Inv from_init first_admission_ready

mark_sent_credits_example :
    ((mark_sent one_queued first_ticket).1 ≡ blank_ticket)
    × (queued_count one_sent + 1 ≡ queued_count one_queued)
    × (((7 ≡ one_queued.id_generation)
          × ((mark_sent one_queued first_ticket).2 ≡ MarkResult.ready)
          × (sent_count one_sent ≡ sent_count one_queued + 1))
        ⊎ ((7 ≢ one_queued.id_generation)
            × ((mark_sent one_queued first_ticket).2 ≡ MarkResult.retired)
            × (sent_count one_sent ≡ sent_count one_queued)))
mark_sent_credits_example =
    mark_sent_credits one_queued first_ticket one_queued-Inv first_ticket_matches

take_credits_example :
    (first_response.state ≡ sent)
    × (first_response.connection_generation ≡ 7)
    × (first_response.id ≡ 4)
    × (sent_count (take one_sent 7 4).0 + 1 ≡ sent_count one_sent)
    × (queued_count (take one_sent 7 4).0 ≡ queued_count one_sent)
take_credits_example = take_credits one_sent 7 4 one_sent-Inv response_found

another_generation : 8 ≢ one_sent.id_generation
unfolding mark_sent ticket_matches admit admit_id admit_slot begin_generation first_free retire_sent
    init count_in
another_generation = λ e. ground arith

-- A ledger whose 512 slots are all queued.
filled : ℕ → ℕ → List Entry
filled zero id = []
filled (suc n) id = entry_for 7 id (pos 0) (pos 0) queued ∷ filled n (suc id)

abbrev full_map : SubmitMap
full_map = record { entries = filled 512 4; id_generation = 7; next_id = 516; id_exhausted = false }

length-filled : (n id : ℕ) → length (filled n id) ≡ n
unfolding filled
length-filled zero id = refl
length-filled (suc n) id = omega (arith, length-filled n (suc id))

get_or-filled :
    (n id i : ℕ)
    → get_or (filled n id) i free_entry
      ≡ (if ltb i n then entry_for 7 (id + i) (pos 0) (pos 0) queued else free_entry)
unfolding filled
get_or-filled zero id i = ground arith
get_or-filled (suc n) id zero = ground arith
get_or-filled (suc n) id (suc i) = ground (arith, get_or-filled n (suc id) i)

full_map-Inv : Inv full_map
full_map-Inv = record {
  size = length-filled 512 4;
  next_low = omega arith;
  next_high = omega arith;
  live = λ i. ground (arith, get_or-filled 512 4 i);
  unique = λ i j. ground (arith, get_or-filled 512 4 i, get_or-filled 512 4 j);
}

first_free-filled : (n id i : ℕ) → first_free (filled n id) i ≡ submit_map_size
unfolding filled first_free
first_free-filled zero id i = refl
first_free-filled (suc n) id i = first_free-filled n (suc id) (suc i)

full_map_refuses : (admit full_map 7 (pos 0) (pos 0) blank_ticket).2 ≡ AdmitResult.full
unfolding admit admit_id begin_generation
full_map_refuses = rw (first_free-filled 512 4 0) refl

admit_full_example :
    ((admit full_map 7 (pos 0) (pos 0) blank_ticket).0 ≡ (begin_generation full_map 7).0)
    × (count (admit full_map 7 (pos 0) (pos 0) blank_ticket).0 ≡ submit_map_size)
admit_full_example =
    admit_full full_map 7 (pos 0) (pos 0) blank_ticket full_map-Inv (omega arith) full_map_refuses
