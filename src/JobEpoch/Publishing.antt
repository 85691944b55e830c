-- ===== src/JobEpoch/Publishing.antt =====
-- Which shares a new job leaves current.
use suprminer_fpga.Prelude.{
  ℕ, ◌-◌, ◌^◌, ◌<◌, ◌≤◌, ◌≡◌, ◌≢◌, ◌↔◌, ◌⊎◌, Bool, true, false, ◌==◌, arith,
}
use suprminer_fpga.Transport.{TransportState, job_usable}
use suprminer_fpga.JobEpoch.{
  Epochs, next_job_epoch, publish_job, restart_epochs, is_epoch_current, is_work_current,
  is_share_current,
}

-- The counter is a number of 64 bits, and the minimum is none above it.
pub record IsValid (s : Epochs) : Type 0 where
  pub small : s.counter < 2 ^ 64
  pub ordered : s.minimum ≤ s.counter

-- From the initial epochs on, each new job keeps the epochs valid.
pub publish_job-IsValid : (s : Epochs) (clean : Bool) → IsValid s → IsValid (publish_job s clean)
unfolding publish_job next_job_epoch
publish_job-IsValid s clean v =
    let small = v.small in
    let ordered = v.ordered in record { small = ground arith; ordered = ground arith }

-- A restart keeps the epochs valid too.
restart_epochs-IsValid : (s : Epochs) → IsValid s → IsValid (restart_epochs s)
unfolding restart_epochs next_job_epoch
restart_epochs-IsValid s v =
    let small = v.small in
    let ordered = v.ordered in record { small = ground arith; ordered = ground arith }

-- The epochs that the jobs and restarts of a connection can reach.
pub data Reach : Epochs → Type 0 where
  starts : Reach (record { counter = 0; minimum = 0 })
  publishes : {s : Epochs} (clean : Bool) → Reach s → Reach (publish_job s clean)
  restarts : {s : Epochs} → Reach s → Reach (restart_epochs s)

-- All of them are valid.
pub Reach-IsValid : {s : Epochs} → Reach s → IsValid s
Reach-IsValid starts = record { small = omega arith; ordered = omega arith }
Reach-IsValid (publishes {s} clean r) = publish_job-IsValid s clean (Reach-IsValid r)
Reach-IsValid (restarts {s} r) = restart_epochs-IsValid s (Reach-IsValid r)

-- After a restart from valid epochs, the only current epoch is its own.
pub restart_epochs-is_epoch_current :
    (s : Epochs) (x : ℕ)
    → IsValid s
    → (is_epoch_current (restart_epochs s) x ≡ true) ↔ (x ≡ (restart_epochs s).counter)
unfolding restart_epochs next_job_epoch is_epoch_current
restart_epochs-is_epoch_current s x v =
    let small = v.small in let ordered = v.ordered in ground arith

current_epochs :
    (s : Epochs) (clean : Bool) (x : ℕ)
    → s.counter < 2 ^ 64
    → s.minimum ≤ s.counter
    → x ≢ 0
    → (is_epoch_current (publish_job s clean) x ≡ true) ↔ (
        (x ≡ (publish_job s clean).counter)
        ⊎ (clean ≡ false) × (s.counter ≢ 2 ^ 64 - 1) × (is_epoch_current s x ≡ true))
unfolding publish_job next_job_epoch is_epoch_current
current_epochs s clean x small ordered nz = ground arith

-- From valid epochs, on a connection whose generation can share: after a new job, the shares that are
-- current are those of this job and, unless it is a clean one or the counter of 64 bits wraps, those that
-- were current before.
pub publish_job-is_share_current :
    (transport : TransportState) (s : Epochs) (clean : Bool) (generation x : ℕ)
    → IsValid s
    → job_usable transport generation ≡ true
    → x ≢ 0
    → (is_share_current true transport (publish_job s clean) generation x ≡ true) ↔ (
        (x ≡ (publish_job s clean).counter)
        ⊎ (clean ≡ false)
          × (s.counter ≢ 2 ^ 64 - 1)
          × (is_share_current true transport s generation x ≡ true))
unfolding is_share_current is_work_current
publish_job-is_share_current transport s clean generation x v usable nz =
    let given : (x == 0) ≡ false = ground arith in
    rw (given, usable) (current_epochs s clean x v.small v.ordered nz)
