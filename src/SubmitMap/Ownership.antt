-- ===== src/SubmitMap/Ownership.antt =====
-- Any interleaving of admissions, cancellations, completed sends and responses, as a step relation
-- on the ledger and the tickets.
use suprminer_fpga.Prelude.{
  All, All-map, All-both, ℕ, ◌≤◌, ◌≡◌, ◌⊎◌, refl, inl, inr, true, List, [], ◌∷◌, ◌==◌, arith,
  Bool-cases, ℤ, ◌≢◌, ◌∙◌, sym, ap,
}
use suprminer_fpga.SubmitMap.Invariant.{
  Inv, cancel-Inv, mark_sent-Inv, take-Inv, init-Inv, ticket_matches_slot, begin_generation-Inv,
}
use suprminer_fpga.SubmitMap.Admission.{admit-Inv, admit_id_cases}
use suprminer_fpga.SubmitMap.Credits.{
  count-le-size, take_cases, begin_generation_queued, take_credits, mark_sent_credits,
  cancel_credits,
}
use suprminer_fpga.SubmitMap.Lifecycle.{admit_ready_slot, admit_ready}
use suprminer_fpga.SubmitMap.{
  Ticket, SubmitMap, AdmitResult, MarkResult, free, queued, sent, free_entry, count_in,
  blank_ticket, entry_at, queued_count, count, init, begin_generation, admit, cancel, mark_sent,
  awaits, take, submit_map_size,
}
use suprminer_fpga.SubmitMap.Tickets.{
  System, Owner, Matched, Owned, All-Owner, Matched-put_entry, Matched-admit_slot,
  Matched-begin_generation, Matched-same, release-Owned,
}

-- Each step is one call, under the lock that the callers hold. An admission comes with the generation of
-- the connection, which is never older than the ledger's.
pub data Step (s : System) : System → Type 0 where
  admitted :
      (g : ℕ) (board fpga : ℤ)
      → s.ledger.id_generation ≤ g
      → (admit s.ledger g board fpga blank_ticket).2 ≡ AdmitResult.ready
      → Step s (record {
        ledger = (admit s.ledger g board fpga blank_ticket).0;
        tickets = (admit s.ledger g board fpga blank_ticket).1 ∷ s.tickets;
      })
  refused :
      (g : ℕ) (board fpga : ℤ)
      → s.ledger.id_generation ≤ g
      → (admit s.ledger g board fpga blank_ticket).2 ≢ AdmitResult.ready
      → Step s (record s { ledger = (admit s.ledger g board fpga blank_ticket).0 })
  cancelled :
      (t : Ticket) (us : List Ticket)
      → Owner s.tickets t us
      → Step s (record { ledger = (cancel s.ledger t).0; tickets = us })
  sent_out :
      (t : Ticket) (us : List Ticket)
      → Owner s.tickets t us
      → Step s (record { ledger = (mark_sent s.ledger t).0; tickets = us })
  answered : (g id : ℕ) → Step s (record s { ledger = (take s.ledger g id).0 })

pub data Reach : System → Type 0 where
  start : Reach (record { ledger = init; tickets = [] })
  next : {s u : System} → Reach s → Step s u → Reach u

cancel-Owned :
    (s : System) (t : Ticket) (us : List Ticket)
    → Owned s
    → Owner s.tickets t us
    → Owned (record { ledger = (cancel s.ledger t).0; tickets = us })
unfolding cancel
cancel-Owned s t us own o =
    let mt = (All-Owner (Matched s.ledger) o own.matched).0 in
    release-Owned s _ t.slot free_entry t us own o (cancel-Inv s.ledger t own.inv) (rw mt)
      (cancel_credits s.ledger t own.inv mt).2

mark_sent-Owned :
    (s : System) (t : Ticket) (us : List Ticket)
    → Owned s
    → Owner s.tickets t us
    → Owned (record { ledger = (mark_sent s.ledger t).0; tickets = us })
unfolding mark_sent
mark_sent-Owned s t us own o =
    let mt = (All-Owner (Matched s.ledger) o own.matched).0 in
    let inv = mark_sent-Inv s.ledger t own.inv in
    let q = (mark_sent_credits s.ledger t own.inv mt).1 in
    elim (Bool-cases (t.connection_generation == s.ledger.id_generation)) [
      | inl e ↦
          release-Owned s _ t.slot (record (entry_at s.ledger t.slot) { state = sent }) t us own o
            inv (rw (mt, e)) q
      | inr e ↦ release-Owned s _ t.slot free_entry t us own o inv (rw (mt, e)) q
    ]

admit_refused_ledger :
    (m : SubmitMap) (g : ℕ) (board fpga : ℤ)
    → m.id_generation ≤ g
    → Inv m
    → (admit m g board fpga blank_ticket).2 ≢ AdmitResult.ready
    → ((admit m g board fpga blank_ticket).0 ≡ m)
      ⊎ ((admit m g board fpga blank_ticket).0 ≡ (begin_generation m g).0)
unfolding admit
admit_refused_ledger m g board fpga h inv r = elim (Bool-cases (g == 0)) [
  | inl z ↦ inl (rw z)
  | inr nz ↦
      elim (admit_id_cases (begin_generation m g).0 g board fpga (begin_generation-Inv m g h inv)) [
        | inl (e, _) ↦ inr (rw (nz, e))
        | inr (inl (e, _, _)) ↦ inr (rw (nz, e))
        | inr (inr (k, _, _, _, e)) ↦ absurd (r (rw (nz, e)))
      ]
]

refused-Owned :
    (s : System) (g : ℕ) (board fpga : ℤ)
    → Owned s
    → s.ledger.id_generation ≤ g
    → (admit s.ledger g board fpga blank_ticket).2 ≢ AdmitResult.ready
    → Owned (record s { ledger = (admit s.ledger g board fpga blank_ticket).0 })
refused-Owned s g board fpga own h r =
    let inv = admit-Inv s.ledger g board fpga blank_ticket h own.inv in
    elim (admit_refused_ledger s.ledger g board fpga h own.inv r) [
      | inl e ↦ rw e own
      | inr e ↦ record {
        inv = inv;
        matched =
            Matched-same _ _ s.tickets e
              (All-map _ _ s.tickets (Matched-begin_generation s.ledger g) own.matched);
        apart = own.apart;
        counted = omega (arith, own.counted, begin_generation_queued s.ledger g, ap queued_count e);
      }
    ]

admitted-Owned :
    (s : System) (g : ℕ) (board fpga : ℤ)
    → Owned s
    → s.ledger.id_generation ≤ g
    → (admit s.ledger g board fpga blank_ticket).2 ≡ AdmitResult.ready
    → Owned (record {
      ledger = (admit s.ledger g board fpga blank_ticket).0;
      tickets = (admit s.ledger g board fpga blank_ticket).1 ∷ s.tickets;
    })
admitted-Owned s g board fpga own h r =
    let m = s.ledger in
    let b = (begin_generation m g).0 in
    let (k, lt, f, e, binv, _) = admit_ready_slot m g board fpga blank_ticket own.inv h r in
    let ready = admit_ready m g board fpga blank_ticket own.inv h r in
    let was : All (Matched b) s.tickets =
      All-map _ _ s.tickets (Matched-begin_generation m g) own.matched in
    let ne : All (λ u. k ≢ u.slot) s.tickets = All-map _ _ s.tickets (λ u q. taken b k u f q) was in
    record {
      inv = admit-Inv m g board fpga blank_ticket h own.inv;
      matched = (
        ready.0,
        Matched-same _ _ s.tickets (ap (λ r. r.0) e) (
            All-both _ _ _ s.tickets (λ u n q. Matched-admit_slot b g board fpga k u binv lt n q) ne
              was),
      );
      apart = (All-map _ _ s.tickets (λ u n x. n (ap (λ r. r.1.slot) (sym e) ∙ x)) ne, own.apart);
      counted = omega (arith, own.counted, ready.4);
    }
  where
    taken :
        (b : SubmitMap) (k : ℕ) (u : Ticket)
        → (entry_at b k).state ≡ free
        → Matched b u
        → k ≢ u.slot
    taken b k u f q e = ground (arith, ticket_matches_slot b u queued q)

answered-Owned :
    (s : System) (g id : ℕ) → Owned s → Owned (record s { ledger = (take s.ledger g id).0 })
answered-Owned s g id own = elim (take_cases s.ledger g id own.inv) [
  | inl (e, _) ↦ rw e own
  | inr (k, lt, a, e) ↦
      let inv = take-Inv s.ledger g id own.inv in
      record {
        inv = inv;
        matched = Matched-same _ _ s.tickets (ap (λ r. r.0) e) (
            All-map _ _ s.tickets
              (λ u q.
                Matched-put_entry s.ledger k free_entry u own.inv lt (taken s.ledger k u a q) q)
              own.matched);
        apart = own.apart;
        counted =
            omega (arith, own.counted, (take_credits s.ledger g id own.inv (ap (λ r. r.1) e)).4);
      }
]
  where
    taken :
        (m : SubmitMap) (k : ℕ) (u : Ticket)
        → awaits g id (entry_at m k) ≡ true
        → Matched m u
        → k ≢ u.slot
    taken m k u a q e = ground (arith, ticket_matches_slot m u queued q)

Step-Owned : {s u : System} → Step s u → Owned s → Owned u
Step-Owned {s} (admitted g board fpga h r) own = admitted-Owned s g board fpga own h r
Step-Owned {s} (refused g board fpga h r) own = refused-Owned s g board fpga own h r
Step-Owned {s} (cancelled t us o) own = cancel-Owned s t us own o
Step-Owned {s} (sent_out t us o) own = mark_sent-Owned s t us own o
Step-Owned {s} (answered g id) own = answered-Owned s g id own

-- After any history in which admissions come with a generation no older than the ledger's, the
-- tickets that commands own are exactly the queued credits: each matches a slot of its own, their
-- number is the number of queued slots, and the ledger is well formed.
pub Reach-Owned : {s : System} → Reach s → Owned s
Reach-Owned start = record {
  inv = init-Inv;
  matched = tt;
  apart = tt;
  counted = unfold init count_in in refl;
}
Reach-Owned (next r st) = Step-Owned st (Reach-Owned r)

-- After any such history an owned ticket can be cancelled, and its send can be recorded as ready or
-- retired: neither call finds a ticket that does not match, and all credits in use fit the map.
pub owned_ticket_usable :
    {s : System} {t : Ticket} {us : List Ticket}
    → Reach s
    → Owner s.tickets t us
    → ((cancel s.ledger t).2 ≡ true)
      × ((mark_sent s.ledger t).2 ≢ MarkResult.invalid)
      × (count s.ledger ≤ submit_map_size)
owned_ticket_usable {s} {t} r o =
    let own = Reach-Owned r in
    let mt = (All-Owner (Matched s.ledger) o own.matched).0 in
    (
      (cancel_credits s.ledger t own.inv mt).0,
      (λ bad. ground (arith, mark_sent_credits s.ledger t own.inv mt)),
      count-le-size s.ledger own.inv,
    )
