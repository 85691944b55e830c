-- ===== src/SubmitMap/Tickets.antt =====
-- The ledger together with the tickets that queued commands own, and what keeps them apart.
use suprminer_fpga.Prelude.{
  All, All-both, ℕ, ◌+◌, ◌<◌, ◌≡◌, true, List, [], ◌∷◌, arith, length, ℤ, ◌≢◌, sym, subst,
}
use suprminer_fpga.SubmitMap.Slots.{get_or-retire_sent}
use suprminer_fpga.SubmitMap.Invariant.{Inv, entry_at-put_entry, ticket_matches_slot}
use suprminer_fpga.SubmitMap.Lifecycle.{entry_for}
use suprminer_fpga.SubmitMap.{
  Entry, Ticket, SubmitMap, queued, put_entry, queued_count, begin_generation, admit_slot,
  ticket_matches, submit_map_size,
}

pub record System : Type 0 where
  pub ledger : SubmitMap
  pub tickets : List Ticket

-- `Owner ts t us`: `t` is one of the tickets `ts`, and `us` are the others.
pub data Owner : List Ticket → Ticket → List Ticket → Type 0 where
  here : {t : Ticket} {ts : List Ticket} → Owner (t ∷ ts) t ts
  there : {u t : Ticket} {ts us : List Ticket} → Owner ts t us → Owner (u ∷ ts) t (u ∷ us)

abbrev pub Matched : SubmitMap → Ticket → Type 0
Matched m t = ticket_matches m t queued ≡ true

abbrev pub Apart : List Ticket → Type 0
Apart [] = Unit {0}
Apart (t ∷ ts) = All (λ u. t.slot ≢ u.slot) ts × Apart ts

pub record Owned (s : System) : Type 0 where
  pub inv : Inv s.ledger
  pub matched : All (Matched s.ledger) s.tickets
  pub apart : Apart s.tickets
  pub counted : length s.tickets ≡ queued_count s.ledger

pub All-Owner :
    (P : Ticket → Type 0) {ts : List Ticket} {t : Ticket} {us : List Ticket}
    → Owner ts t us
    → All P ts
    → P t × All P us
All-Owner P here h = (h.0, h.1)
All-Owner P (there o) h = let (p, q) = All-Owner P o h.1 in (p, (h.0, q))

-- Taking one ticket out leaves tickets on other slots, which are apart from each other.
pub Apart-Owner :
    {ts : List Ticket} {t : Ticket} {us : List Ticket}
    → Owner ts t us
    → Apart ts
    → All (λ u. t.slot ≢ u.slot) us × Apart us
Apart-Owner here h = h
Apart-Owner (there o) h =
    let (a, b) = Apart-Owner o h.1 in
    let (ne, rest) = All-Owner _ o h.0 in ((λ e. ne (sym e), a), (rest, b))

pub length-Owner :
    {ts : List Ticket} {t : Ticket} {us : List Ticket} → Owner ts t us → length ts ≡ length us + 1
length-Owner here = omega arith
length-Owner (there o) = omega (arith, length-Owner o)

-- A write to another slot does not concern a ticket.
pub Matched-put_entry :
    (m : SubmitMap) (i : ℕ) (v : Entry) (u : Ticket)
    → Inv m
    → i < submit_map_size
    → i ≢ u.slot
    → Matched m u
    → Matched (put_entry m i v) u
unfolding ticket_matches
Matched-put_entry m i v u inv lt ne h = ground (arith, entry_at-put_entry m i u.slot v inv lt)

pub Matched-admit_slot :
    (b : SubmitMap) (g : ℕ) (board fpga : ℤ) (k : ℕ) (u : Ticket)
    → Inv b
    → k < submit_map_size
    → k ≢ u.slot
    → Matched b u
    → Matched (admit_slot b g board fpga k) u
unfolding ticket_matches admit_slot
Matched-admit_slot b g board fpga k u inv lt ne h =
    ground (arith, entry_at-put_entry b k u.slot (entry_for g b.next_id board fpga queued) inv lt)

pub Matched-begin_generation :
    (m : SubmitMap) (g : ℕ) (u : Ticket) → Matched m u → Matched (begin_generation m g).0 u
unfolding ticket_matches begin_generation
Matched-begin_generation m g u h = ground (arith, get_or-retire_sent m.entries u.slot)

pub Matched-same :
    (m n : SubmitMap) (ts : List Ticket) → m ≡ n → All (Matched n) ts → All (Matched m) ts
Matched-same m n ts e h = subst (λ x. All (Matched x) ts) (sym e) h

-- What leaves every other ticket's slot alone, and takes one queued slot, keeps ownership.
pub release-Owned :
    (s : System) (m : SubmitMap) (i : ℕ) (v : Entry) (t : Ticket) (us : List Ticket)
    → Owned s
    → Owner s.tickets t us
    → Inv m
    → m ≡ put_entry s.ledger t.slot v
    → queued_count m + 1 ≡ queued_count s.ledger
    → Owned (record { ledger = m; tickets = us })
release-Owned s m i v t us own o inv e q =
    let (mt, mus) = All-Owner (Matched s.ledger) o own.matched in
    let (ne, apart) = Apart-Owner o own.apart in
    let lt = (ticket_matches_slot s.ledger t queued mt).0 in
    record {
      inv = inv;
      matched = Matched-same _ _ us e (
          All-both _ _ _ us (λ u n h. Matched-put_entry s.ledger t.slot v u own.inv lt n h) ne mus);
      apart = apart;
      counted = omega (arith, own.counted, length-Owner o);
    }
