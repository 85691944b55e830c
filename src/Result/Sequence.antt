-- ===== src/Result/Sequence.antt =====
-- Exactly-once processing: what histories of `mark_processed` allow.
use suprminer_fpga.Prelude.{
  ◌+◌, ◌≤◌, ◌≡◌, ◌↔◌, true, false, some, uint32_max, List, [], ◌∷◌, arith, length, subst,
}
use suprminer_fpga.Protocol.{Status}
use suprminer_fpga.Result.{
  ResultKey, ResultDisposition, ResultState, result_init, key_from_status, classify, mark_processed,
  ack_allowed,
}

-- The keys that were processed, newest first; `mark_processed` may be tried with any snapshot.
pub data ResultReach (old : ResultKey) : ResultState → List ResultKey → Type 0 where
  starts : ResultReach old (result_init old) []
  marks :
      {s u : ResultState} {ks : List ResultKey} (st : Status) (key : ResultKey)
      → ResultReach old s ks
      → mark_processed s st key ≡ (u, true)
      → ResultReach old u (key ∷ ks)
  refuses :
      {s u : ResultState} {ks : List ResultKey} (st : Status) (key : ResultKey)
      → ResultReach old s ks
      → mark_processed s st key ≡ (u, false)
      → ResultReach old u ks

-- The sequence numbers are 1, 2, 3, … with no gap.
abbrev pub Consecutive : List ResultKey → Type 0
Consecutive [] = Unit {0}
Consecutive (k ∷ ks) = (k.sequence ≡ length ks + 1) × Consecutive ks

abbrev pub NewestIs : ResultState → List ResultKey → Type 0
NewestIs s [] = s.processed_valid ≡ false
NewestIs s (k ∷ ks) = (s.processed_valid ≡ true) × (s.processed ≡ k)

pub record Inv (s : ResultState) (ks : List ResultKey) : Type 0 where
  pub consecutive : Consecutive ks
  pub newest : NewestIs s ks
  pub next : s.exhausted ≡ false → s.next_sequence ≡ length ks + 1
  pub last : s.exhausted ≡ true → length ks ≡ uint32_max
  pub word : length ks ≤ uint32_max
  pub next_word : s.next_sequence ≤ uint32_max

mark-Inv :
    (s u : ResultState) (ks : List ResultKey) (st : Status) (key : ResultKey)
    → Inv s ks
    → mark_processed s st key ≡ (u, true)
    → Inv u (key ∷ ks)
unfolding mark_processed
mark-Inv s u ks st key inv h = ground arith

refused_same :
    (s u : ResultState) (st : Status) (key : ResultKey)
    → mark_processed s st key ≡ (u, false)
    → s ≡ u
unfolding mark_processed
refused_same s u st key h = ground arith

refuse-Inv :
    (s u : ResultState) (ks : List ResultKey) (st : Status) (key : ResultKey)
    → Inv s ks
    → mark_processed s st key ≡ (u, false)
    → Inv u ks
refuse-Inv s u ks st key inv h = subst (λ x. Inv x ks) (refused_same s u st key h) inv

-- After any history the processed results carry the sequence numbers 1, 2, 3, … without a gap or a
-- repeat, the newest of them is the one that is remembered, and the counter never wraps.
pub ResultReach-Inv :
    {old : ResultKey} {s : ResultState} {ks : List ResultKey} → ResultReach old s ks → Inv s ks
ResultReach-Inv starts = unfold result_init in ground arith
ResultReach-Inv (marks {s} {u} {ks} st key r h) = mark-Inv s u ks st key (ResultReach-Inv r) h
ResultReach-Inv (refuses {s} {u} {ks} st key r h) = refuse-Inv s u ks st key (ResultReach-Inv r) h

-- In any state: a result that is classified as new and then marked with the key that was handed out
-- is recorded, is from then on classified as a retry, and may be acknowledged.
pub fresh_then_ack :
    (s : ResultState) (st : Status) (key : ResultKey)
    → classify s st ≡ (ResultDisposition.fresh, some key)
    → let u = (mark_processed s st key).0 in
      ((mark_processed s st key).1 ≡ true)
      × (classify u st ≡ (ResultDisposition.ack_retry, some key))
      × (ack_allowed u st ≡ true)
unfolding classify mark_processed ack_allowed
fresh_then_ack s st key h = ground arith

-- An acknowledgement is allowed exactly for the result that was processed last.
pub ack_allowed_iff :
    (s : ResultState) (st : Status)
    → (ack_allowed s st ≡ true)
      ↔ ((s.processed_valid ≡ true) × (key_from_status st ≡ some s.processed))
unfolding ack_allowed
ack_allowed_iff s st = (λ e. ground arith, λ p. ground arith)
