-- ===== src/Vu9pPolicy.antt =====
-- vu9p_bs1_policy.h: when the VU9P host rolls its work, so that no nonce is hashed twice.
pub mod Rolling
mod Runs
use suprminer_fpga.Prelude.{
  ℕ, ◌+◌, ◌-◌, ◌*◌, ◌/◌, ◌%◌, ◌^◌, Bool, true, false, not, ◌&&◌, ◌||◌, ltb, leb, ◌==◌,
  if◌then◌else◌, uint64_max,
}

abbrev pub nonce_space_hashes : ℕ
nonce_space_hashes = 2 ^ 32

abbrev pub poll_period_ms : ℕ
poll_period_ms = 50

abbrev pub active_mask_bs1 : ℕ
active_mask_bs1 = 1

abbrev pub build_id_bc3_bs1 : ℕ
build_id_bc3_bs1 = 0x5a3d0001

pub data RollDecision : Type 0 where
  continue threshold counter_regression counter_overrun invalid_config : RollDecision

unfoldable pub active_lanes_valid : ℕ → Bool
active_lanes_valid lanes = lanes == 1

unfoldable pub active_lane_mask : ℕ → ℕ
active_lane_mask lanes = if lanes == 1 then active_mask_bs1 else 0

unfoldable pub production_build_id : ℕ → ℕ
production_build_id lanes = if lanes == 1 then build_id_bc3_bs1 else 0

unfoldable pub production_identity_matches : ℕ → ℕ → Bool
production_identity_matches build_id lanes = lanes == 1 && build_id == build_id_bc3_bs1

unfoldable pub transaction_timeout_ms : ℕ → ℕ
transaction_timeout_ms max_poll_work_ms =
    if leb max_poll_work_ms poll_period_ms then 0 else (max_poll_work_ms - poll_period_ms) / 2

unfoldable pub unique_epoch_capacity : ℕ → ℕ
unique_epoch_capacity lanes = if lanes == 1 then nonce_space_hashes else 0

unfoldable pub hashes_for_ms_capped : ℕ → ℕ → ℕ → ℕ
hashes_for_ms_capped rate_hps interval_ms cap =
    let whole : ℕ = rate_hps / 1000 in
    let product : ℕ = whole * interval_ms % 2 ^ 64 in
    let tail : ℕ = (rate_hps % 1000 * interval_ms + 999) % 2 ^ 64 / 1000 in
    if rate_hps == 0 || interval_ms == 0 || cap == 0
    then 0
    else if ltb (cap / interval_ms) whole
    then cap
    else if leb cap product || leb (cap - product) tail
    then cap
    else product + tail

unfoldable pub effective_rate : ℕ → ℕ → ℕ
effective_rate configured measured = if ltb configured measured then measured else configured

unfoldable pub roll_limit : ℕ → ℕ → ℕ → ℕ → ℕ
roll_limit lanes configured measured max_poll_work_ms =
    let capacity = unique_epoch_capacity lanes in
    let guard_hashes =
      hashes_for_ms_capped (effective_rate configured measured) max_poll_work_ms capacity in
    if capacity == 0 || configured == 0 || transaction_timeout_ms max_poll_work_ms == 0
    then 0
    else if leb capacity guard_hashes
    then 0
    else capacity - guard_hashes

-- Arguments: the previous and the current counter, the lanes, both rates, and the poll bound.
unfoldable pub classify_hash_counter : ℕ → ℕ → ℕ → ℕ → ℕ → ℕ → RollDecision
classify_hash_counter previous_raw current_raw lanes configured measured max_poll_work_ms =
    let capacity = unique_epoch_capacity lanes in
    let limit = roll_limit lanes configured measured max_poll_work_ms in
    if capacity == 0 || limit == 0
    then invalid_config
    else if ltb capacity current_raw
    then counter_overrun
    else if ltb current_raw previous_raw
    then counter_regression
    else if leb limit current_raw
    then threshold
    else continue

unfoldable pub unique_hashes_in_epoch : ℕ → ℕ → ℕ
unique_hashes_in_epoch raw_hashes lanes =
    let capacity = unique_epoch_capacity lanes in
    if ltb capacity raw_hashes then capacity else raw_hashes

unfoldable pub add_unique_hashes : ℕ → ℕ → ℕ → ℕ
add_unique_hashes cumulative raw_epoch_hashes lanes =
    let epoch = unique_hashes_in_epoch raw_epoch_hashes lanes in
    if ltb (uint64_max - epoch) cumulative then uint64_max else cumulative + epoch
