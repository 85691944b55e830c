-- ===== src/SubmitMap.antt =====
-- stratum_submit_map.h: the bounded ledger of shares in flight. Each slot is one admission credit.
-- A `SubmitMap` stands for `struct stratum_submit_map`; pointers to it, to tickets and to entries
-- are taken as non-null, since every caller passes the address of an object.
pub mod Slots
pub mod Invariant
pub mod Admission
pub mod Credits
pub mod Lifecycle
pub mod Tickets
pub mod Ownership
mod Runs
use suprminer_fpga.Prelude.{
  ℕ, suc, ◌+◌, Bool, true, false, not, ◌&&◌, ◌||◌, List, [], ◌∷◌, Option, none, some, ltb, ◌==◌,
  if◌then◌else◌, int_max, ℤ, pos, get_or, set, replicate,
}

-- STRATUM_SUBMIT_MAP_SIZE and STRATUM_SUBMIT_ID_FIRST.
abbrev pub submit_map_size : ℕ
submit_map_size = 512

abbrev pub submit_id_first : ℕ
submit_id_first = 4

pub data SlotState : Type 0 where
  free queued sent : SlotState

abbrev pub state_eq : SlotState → SlotState → Bool
state_eq free free = true
state_eq queued queued = true
state_eq sent sent = true
state_eq _ _ = false

pub record Entry : Type 0 where
  pub id : ℕ
  pub connection_generation : ℕ
  pub board : ℤ
  pub fpga : ℤ
  pub state : SlotState

pub record Ticket : Type 0 where
  pub slot : ℕ
  pub id : ℕ
  pub connection_generation : ℕ
  pub valid : Bool

pub record SubmitMap : Type 0 where
  pub entries : List Entry
  pub id_generation : ℕ
  pub next_id : ℕ
  pub id_exhausted : Bool

pub data AdmitResult : Type 0 where
  invalid exhausted full ready : AdmitResult

pub data MarkResult : Type 0 where
  invalid retired ready : MarkResult

-- What `stratum_submit_ticket_init` leaves in a ticket.
abbrev pub blank_ticket : Ticket
blank_ticket = record { slot = submit_map_size; id = 0; connection_generation = 0; valid = false }

-- What `stratum_submit_map_clear_entry` leaves in a slot.
abbrev pub free_entry : Entry
free_entry = record { id = 0; connection_generation = 0; board = pos 0; fpga = pos 0; state = free }

unfoldable pub init : SubmitMap
init = record {
  entries = replicate submit_map_size free_entry;
  id_generation = 0;
  next_id = submit_id_first;
  id_exhausted = false;
}

-- `map->entries[i]`, for an index below `submit_map_size`.
abbrev pub entry_at : SubmitMap → ℕ → Entry
entry_at m i = get_or m.entries i free_entry

-- The loop of `count_state`.
unfoldable pub count_in : SlotState → List Entry → ℕ
count_in s [] = 0
count_in s (e ∷ es) = let rest = count_in s es in if state_eq e.state s then suc rest else rest

abbrev pub count_state : SubmitMap → SlotState → ℕ
count_state m s = count_in s m.entries

abbrev pub queued_count : SubmitMap → ℕ
queued_count m = count_state m queued

abbrev pub sent_count : SubmitMap → ℕ
sent_count m = count_state m sent

unfoldable pub count : SubmitMap → ℕ
count m = count_state m queued + count_state m sent

-- The loop of `begin_generation`: the slots after it, and `retired`.
unfoldable pub retire_sent : List Entry → List Entry
retire_sent [] = []
retire_sent (e ∷ es) = (if state_eq e.state sent then free_entry else e) ∷ retire_sent es

unfoldable pub begin_generation : SubmitMap → ℕ → SubmitMap × ℕ
begin_generation m g = if g == 0 || m.id_generation == g then (m, 0) else (
  record {
    entries = retire_sent m.entries;
    id_generation = g;
    next_id = submit_id_first;
    id_exhausted = false;
  },
  count_in sent m.entries,
)

-- The search of `admit` from index `i` on; `submit_map_size` when no slot is free.
unfoldable pub first_free : List Entry → ℕ → ℕ
first_free [] i = submit_map_size
first_free (e ∷ es) i = if state_eq e.state free then i else first_free es (suc i)

-- The writes of an admission into the slot that was found.
unfoldable pub admit_slot : SubmitMap → ℕ → ℤ → ℤ → ℕ → SubmitMap
admit_slot m g board fpga slot = record m {
  entries = set m.entries slot (record {
    id = m.next_id;
    connection_generation = g;
    board = board;
    fpga = fpga;
    state = queued;
  });
  id_exhausted = m.next_id == int_max || m.id_exhausted;
  next_id = if m.next_id == int_max then m.next_id else suc m.next_id;
}

-- `admit` behind its guards and the change of generation.
unfoldable pub admit_id : SubmitMap → ℕ → ℤ → ℤ → SubmitMap × Ticket × AdmitResult
admit_id m g board fpga =
    let slot = first_free m.entries 0 in
    if m.id_exhausted
    then (m, blank_ticket, AdmitResult.exhausted)
    else if ltb m.next_id submit_id_first || ltb int_max m.next_id
    then (m, blank_ticket, AdmitResult.invalid)
    else if slot == submit_map_size
    then (m, blank_ticket, AdmitResult.full)
    else (
      admit_slot m g board fpga slot,
      record { slot = slot; id = m.next_id; connection_generation = g; valid = true },
      AdmitResult.ready,
    )

unfoldable pub admit : SubmitMap → ℕ → ℤ → ℤ → Ticket → SubmitMap × Ticket × AdmitResult
admit m g board fpga t =
    if g == 0 || t.valid
    then (m, t, AdmitResult.invalid)
    else admit_id (begin_generation m g).0 g board fpga

unfoldable pub ticket_matches : SubmitMap → Ticket → SlotState → Bool
ticket_matches m t s =
    let e = entry_at m t.slot in
    t.valid
    && ltb t.slot submit_map_size
    && state_eq e.state s
    && e.id == t.id
    && e.connection_generation == t.connection_generation

abbrev pub put_entry : SubmitMap → ℕ → Entry → SubmitMap
put_entry m i e = record m { entries = set m.entries i e }

unfoldable pub cancel : SubmitMap → Ticket → SubmitMap × Ticket × Bool
cancel m t =
    if ticket_matches m t queued
    then (put_entry m t.slot free_entry, blank_ticket, true)
    else (m, t, false)

unfoldable pub mark_sent : SubmitMap → Ticket → SubmitMap × Ticket × MarkResult
mark_sent m t =
    if not (ticket_matches m t queued)
    then (m, t, MarkResult.invalid)
    else if not (t.connection_generation == m.id_generation)
    then (put_entry m t.slot free_entry, blank_ticket, MarkResult.retired)
    else (
      put_entry m t.slot (record (entry_at m t.slot) { state = sent }),
      blank_ticket,
      MarkResult.ready,
    )

-- The test that a slot passes in the loop of `take`.
abbrev pub awaits : ℕ → ℕ → Entry → Bool
awaits g id e = state_eq e.state sent && e.connection_generation == g && e.id == id

-- The loop of `take` from index `i` on; `none` is the early return on a duplicate identity.
unfoldable pub take_scan : ℕ → ℕ → List Entry → ℕ → ℕ → Option ℕ
take_scan g id [] i found = some found
take_scan g id (e ∷ es) i found =
    let rest = take_scan g id es (suc i) (if awaits g id e then i else found) in
    if awaits g id e && not (found == submit_map_size) then none else rest

-- What follows the loop: nothing found is refused, or the slot is copied out and cleared.
unfoldable pub take_found : SubmitMap → Option ℕ → SubmitMap × Option Entry
take_found m none = (m, none)
take_found m (some i) =
    if i == submit_map_size then (m, none) else (put_entry m i free_entry, some (entry_at m i))

-- `none` for `false`, and `some entry` for `true` with `*entry` written.
unfoldable pub take : SubmitMap → ℕ → ℕ → SubmitMap × Option Entry
take m g id =
    if g == 0 || ltb id submit_id_first || ltb int_max id
    then (m, none)
    else take_found m (take_scan g id m.entries 0 submit_map_size)
