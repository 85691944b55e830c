-- ===== src/JobEpoch/Runs.antt =====
-- Runs of the job epochs, and a concrete case of their theorem.
use suprminer_fpga.Prelude.{
  ℕ, ◌≡◌, ◌≢◌, ◌↔◌, ◌⊎◌, ◌-◌, ◌^◌, refl, Bool, true, false, arith, uint64_max,
}
use suprminer_fpga.Transport.{TransportState, authenticated, job_usable, can_share}
use suprminer_fpga.JobEpoch.{
  Epochs, publish_job, is_share_current, next_job_epoch, is_epoch_current, is_work_current,
}
use suprminer_fpga.JobEpoch.Publishing.{IsValid, publish_job-is_share_current}

abbrev open_connection : TransportState
open_connection = record { phase = authenticated; generation = 3 }

abbrev some_jobs : Epochs
some_jobs = record { counter = 7; minimum = 5 }

abbrev last_epoch : Epochs
last_epoch = record { counter = uint64_max; minimum = 5 }

old_share_kept : is_share_current true open_connection (publish_job some_jobs false) 3 6 ≡ true
unfolding is_share_current is_work_current job_usable can_share is_epoch_current publish_job
    next_job_epoch
old_share_kept = refl

old_share_dropped : is_share_current true open_connection (publish_job some_jobs true) 3 6 ≡ false
unfolding is_share_current is_work_current job_usable can_share is_epoch_current publish_job
    next_job_epoch
old_share_dropped = refl

wrapped : publish_job last_epoch false ≡ record { counter = 1; minimum = 1 }
unfolding publish_job next_job_epoch
wrapped = refl

some_jobs-IsValid : IsValid some_jobs
some_jobs-IsValid = record { small = omega arith; ordered = omega arith }

connection_usable : job_usable open_connection 3 ≡ true
unfolding job_usable can_share
connection_usable = refl

publish_job-is_share_current_example :
    (is_share_current true open_connection (publish_job some_jobs false) 3 6 ≡ true) ↔ (
      (6 ≡ (publish_job some_jobs false).counter)
      ⊎ (◌≡◌ {A = Bool} false false)
        × (◌≢◌ {A = ℕ} 7 (2 ^ 64 - 1))
        × (is_share_current true open_connection some_jobs 3 6 ≡ true))
publish_job-is_share_current_example =
    publish_job-is_share_current open_connection some_jobs false 3 6 some_jobs-IsValid
      connection_usable (omega arith)
