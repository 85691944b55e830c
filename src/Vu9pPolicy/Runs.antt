-- ===== src/Vu9pPolicy/Runs.antt =====
-- Runs of the VU9P policy, and concrete cases of its theorems.
use suprminer_fpga.Prelude.{ℕ, ◌+◌, ◌<◌, ◌≤◌, ◌≡◌, ◌↔◌, refl, uint64_max, arith}
use suprminer_fpga.Vu9pPolicy.{
  continue, threshold, counter_regression, hashes_for_ms_capped, effective_rate,
  classify_hash_counter, add_unique_hashes, roll_limit, transaction_timeout_ms,
  unique_epoch_capacity, unique_hashes_in_epoch,
}
use suprminer_fpga.Vu9pPolicy.Rolling.{hashes_in, classify_hash_counter-continue_iff}

abbrev rate : ℕ
rate = 200000000

abbrev measured_rate : ℕ
measured_rate = 300000000

abbrev near_end : ℕ
near_end = 4280000000

goes_on : classify_hash_counter 0 1000000 1 rate 0 100 ≡ continue
unfolding classify_hash_counter unique_epoch_capacity roll_limit transaction_timeout_ms
    hashes_for_ms_capped effective_rate
goes_on = refl

rolls : classify_hash_counter 0 near_end 1 rate 0 100 ≡ threshold
unfolding classify_hash_counter unique_epoch_capacity roll_limit transaction_timeout_ms
    hashes_for_ms_capped effective_rate
rolls = refl

went_back : classify_hash_counter 5 4 1 rate 0 100 ≡ counter_regression
unfolding classify_hash_counter unique_epoch_capacity roll_limit transaction_timeout_ms
    hashes_for_ms_capped effective_rate
went_back = refl

saturates : add_unique_hashes uint64_max 1 1 ≡ uint64_max
unfolding add_unique_hashes unique_hashes_in_epoch unique_epoch_capacity
saturates = refl

-- The measured rate is the larger one, and takes the last nonces.
rolls_measured : classify_hash_counter 0 4270000000 1 rate measured_rate 100 ≡ threshold
unfolding classify_hash_counter unique_epoch_capacity roll_limit transaction_timeout_ms
    hashes_for_ms_capped effective_rate
rolls_measured = refl

classify_hash_counter-continue_iff_example :
    (classify_hash_counter 0 4270000000 1 rate measured_rate 100 ≡ continue) ↔ (
      (◌≡◌ {A = ℕ} 1 1)
      × (0 < rate)
      × (51 < 100)
      × (0 ≤ 4270000000)
      × (4270000000 + hashes_in rate 100 < 4294967296)
      × (4270000000 + hashes_in measured_rate 100 < 4294967296))
classify_hash_counter-continue_iff_example =
    classify_hash_counter-continue_iff 0 4270000000 1 rate measured_rate 100 (omega arith)
      (omega arith) (omega arith)
