-- ===== src/Progress.antt =====
-- bc3_ztex_progress.h: the diagnostic hash that proves that a lane is hashing its own work.
pub mod Verified
mod Runs
use suprminer_fpga.Prelude.{
  ℕ, ◌-◌, Bool, true, false, not, ◌&&◌, ◌||◌, ltb, leb, ◌==◌, if◌then◌else◌, Option, none, some,
}
use suprminer_fpga.Protocol.{Status, has_flag}
use suprminer_fpga.Protocol.Flag

pub record ProgressKey : Type 0 where
  pub session : ℕ
  pub epoch : ℕ
  pub generation : ℕ
  pub nonce : ℕ
  pub hash7 : ℕ

pub record ProgressState : Type 0 where
  pub verified_valid : Bool
  pub verified : ProgressKey

pub data ProgressDisposition : Type 0 where
  invalid empty fresh repeated : ProgressDisposition

abbrev pub disposition_eq : ProgressDisposition → ProgressDisposition → Bool
disposition_eq ProgressDisposition.invalid ProgressDisposition.invalid = true
disposition_eq ProgressDisposition.empty ProgressDisposition.empty = true
disposition_eq ProgressDisposition.fresh ProgressDisposition.fresh = true
disposition_eq ProgressDisposition.repeated ProgressDisposition.repeated = true
disposition_eq _ _ = false

unfoldable pub allowed_for_rate : ProgressDisposition → Bool → Bool
allowed_for_rate d baseline =
    disposition_eq d ProgressDisposition.fresh
    || (baseline && disposition_eq d ProgressDisposition.repeated)

-- `bc3_ztex_progress_init` writes the flag alone.
unfoldable pub progress_init : ProgressState → ProgressState
progress_init s = record s { verified_valid = false }

abbrev pub key_equal : ProgressKey → ProgressKey → Bool
key_equal a b =
    a.session == b.session
    && a.epoch == b.epoch
    && a.generation == b.generation
    && a.nonce == b.nonce
    && a.hash7 == b.hash7

abbrev pub status_key : Status → ProgressKey
status_key st = record {
  session = st.active_session;
  epoch = st.active_epoch;
  generation = st.progress_generation;
  nonce = st.progress_nonce;
  hash7 = st.progress_hash7;
}

-- `none` for `false`.
unfoldable pub key_from_status : Status → Option ProgressKey
key_from_status st =
    if not (has_flag st.flags Flag.active_valid)
      || st.active_session == 0
      || st.active_epoch == 0
      || st.progress_generation == 0
    then none
    else some (status_key st)

-- The scheduler counts nonces from zero, and completes at most one hash past the diagnostic. The
-- generation is not zero where this is tested.
abbrev pub schedule_broken : ProgressKey → Status → Bool
schedule_broken key st =
    not (key.nonce == key.generation - 1)
    || ltb st.completed_hashes key.generation
    || ltb 1 (st.completed_hashes - key.generation)

-- `classify` of a candidate that keeps the schedule.
unfoldable pub classify_key : ProgressState → ProgressKey → ProgressDisposition
classify_key s key =
    let v = s.verified in
    if not s.verified_valid
    then ProgressDisposition.fresh
    else if not (key.session == v.session)
        || not (key.epoch == v.epoch)
        || ltb key.generation v.generation
    then ProgressDisposition.invalid
    else if key.generation == v.generation
    then if key_equal key v then ProgressDisposition.repeated else ProgressDisposition.invalid
    else if key.nonce == v.nonce
    then ProgressDisposition.invalid
    else ProgressDisposition.fresh

-- The disposition, and the key if it is written.
unfoldable pub classify : ProgressState → Status → ProgressDisposition × Option ProgressKey
unfolding key_from_status classify_key
classify s st =
    if not (has_flag st.flags Flag.active_valid) || st.progress_generation == 0
    then (
      if not (st.progress_generation == 0)
            || not (st.progress_nonce == 0)
            || not (st.progress_hash7 == 0)
          then ProgressDisposition.invalid
          else ProgressDisposition.empty,
      none,
    )
    else elim (key_from_status st) [
      | none ↦ (ProgressDisposition.invalid, none)
      | some key ↦
          if schedule_broken key st
          then (ProgressDisposition.invalid, none)
          else (classify_key s key, some key)
    ]

-- The tests of `mark_verified` against the scheduler, which it writes out once more.
abbrev pub unscheduled : ProgressKey → Status → Bool
unscheduled key st =
    not (key.nonce == key.generation - 1)
    || ltb st.completed_hashes key.generation
    || ltb 1 (st.completed_hashes - key.generation)

-- The tests of `mark_verified` against what was verified before.
abbrev pub repeats : ProgressState → ProgressKey → Bool
repeats s key =
    s.verified_valid
    && (not (key.session == s.verified.session)
        || not (key.epoch == s.verified.epoch)
        || leb key.generation s.verified.generation
        || key.nonce == s.verified.nonce)

unfoldable pub mark_verified : ProgressState → Status → ProgressKey → ProgressState × Bool
unfolding key_from_status
mark_verified s st key = elim (key_from_status st) [
  | none ↦ (s, false)
  | some candidate ↦
      if unscheduled candidate st || not (key_equal candidate key) || repeats s candidate
      then (s, false)
      else (record { verified_valid = true; verified = candidate }, true)
]
