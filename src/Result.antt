-- ===== src/Result.antt =====
-- bc3_ztex_result.h: each FIFO result is processed once, in sequence, before it is acknowledged.
pub mod Sequence
mod Runs
use suprminer_fpga.Prelude.{
  ℕ, ◌+◌, Bool, true, false, not, ◌&&◌, ◌||◌, ◌==◌, if◌then◌else◌, Option, none, some, uint32_max,
}
use suprminer_fpga.Protocol.{Status, has_flag, type_result, type_status}
use suprminer_fpga.Protocol.Flag

pub record ResultKey : Type 0 where
  pub session : ℕ
  pub epoch : ℕ
  pub sequence : ℕ
  pub nonce : ℕ
  pub hash7 : ℕ

pub data ResultDisposition : Type 0 where
  invalid empty fresh ack_retry : ResultDisposition

pub record ResultState : Type 0 where
  pub next_sequence : ℕ
  pub processed_valid : Bool
  pub exhausted : Bool
  pub processed : ResultKey

-- The three fields that `bc3_ztex_result_init` writes; the key keeps what it held.
unfoldable pub result_init : ResultKey → ResultState
result_init key = record {
  next_sequence = 1;
  processed_valid = false;
  exhausted = false;
  processed = key;
}

abbrev pub key_equal : ResultKey → ResultKey → Bool
key_equal a b =
    a.session == b.session
    && a.epoch == b.epoch
    && a.sequence == b.sequence
    && a.nonce == b.nonce
    && a.hash7 == b.hash7

-- `none` for `false`.
unfoldable pub key_from_status : Status → Option ResultKey
key_from_status st =
    if not (has_flag st.flags Flag.head_valid) || not (st.frame_type == type_result)
    then none
    else some (record {
      session = st.head_session;
      epoch = st.head_epoch;
      sequence = st.head_sequence;
      nonce = st.head_nonce;
      hash7 = st.head_hash7;
    })

-- `classify` of a candidate key.
unfoldable pub classify_key : ResultState → ResultKey → ResultDisposition
classify_key s key =
    if s.processed_valid && key_equal s.processed key
    then ResultDisposition.ack_retry
    else if s.exhausted || not (key.sequence == s.next_sequence)
    then ResultDisposition.invalid
    else ResultDisposition.fresh

-- The disposition, and the key if it is written.
unfoldable pub classify : ResultState → Status → ResultDisposition × Option ResultKey
unfolding key_from_status classify_key
classify s st =
    if not (has_flag st.flags Flag.head_valid)
    then (
      if st.frame_type == type_status then ResultDisposition.empty else ResultDisposition.invalid,
      none,
    )
    else elim (key_from_status st) [
      | none ↦ (ResultDisposition.invalid, none)
      | some key ↦ (classify_key s key, some key)
    ]

-- The state behind the tests of `mark_processed`.
unfoldable pub record_processed : ResultState → ResultKey → ResultState
record_processed s key = record {
  next_sequence = if key.sequence == uint32_max then s.next_sequence else s.next_sequence + 1;
  processed_valid = true;
  exhausted = key.sequence == uint32_max || s.exhausted;
  processed = key;
}

unfoldable pub mark_processed : ResultState → Status → ResultKey → ResultState × Bool
unfolding key_from_status record_processed
mark_processed s st key = elim (key_from_status st) [
  | none ↦ (s, false)
  | some candidate ↦
      if s.exhausted || not (key_equal candidate key) || not (key.sequence == s.next_sequence)
      then (s, false)
      else (record_processed s key, true)
]

unfoldable pub ack_allowed : ResultState → Status → Bool
unfolding key_from_status
ack_allowed s st = elim (key_from_status st) [
  | none ↦ false
  | some candidate ↦ s.processed_valid && key_equal s.processed candidate
]
