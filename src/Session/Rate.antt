-- ===== src/Session/Rate.antt =====
-- bc3_ztex_session.h: hash-rate samples within one active tuple. The `uint64_t` arithmetic wraps as
-- written; subtractions stand behind the tests that keep them from going below zero.
use suprminer_fpga.Prelude.{
  ℕ, ◌+◌, ◌-◌, ◌*◌, ◌/◌, ◌%◌, ◌^◌, Bool, true, false, not, ◌&&◌, ◌||◌, ltb, leb, ◌==◌,
  if◌then◌else◌, uint32_max, uint64_max,
}
use suprminer_fpga.Protocol.{Status, has_flag}
use suprminer_fpga.Protocol.Flag
use suprminer_fpga.Session.{SessionState, tuple_equal, hw_tuple}
use suprminer_fpga.Session.Compatible.{status_compatible}

pub data RateDisposition : Type 0 where
  invalid baseline rebaseline_progress no_progress sample : RateDisposition

pub data DisplayDisposition : Type 0 where
  invalid baseline accumulating sample : DisplayDisposition

-- The limits that a caller passes: `max_interval_us`, `max_hps`, `max_snapshot_age_us` and
-- `burst_slack`.
pub record RateLimits : Type 0 where
  pub max_interval_us : ℕ
  pub max_hps : ℕ
  pub max_snapshot_age_us : ℕ
  pub burst_slack : ℕ

-- The tests on the limits alone.
unfoldable pub limits_bad : RateLimits → Bool
limits_bad l =
    l.max_interval_us == 0
    || l.max_hps == 0
    || ltb (uint64_max - l.max_snapshot_age_us) l.max_interval_us
    || l.burst_slack == uint32_max

-- `limit_window_us > product_budget / max_hps`.
unfoldable pub window_too_large : RateLimits → Bool
window_too_large l =
    let limit_window_us = l.max_interval_us + l.max_snapshot_age_us in
    let hash_budget = uint32_max - 1 - l.burst_slack in
    ltb (hash_budget * 1000000 / l.max_hps) limit_window_us

-- `max_hps * effective_us` as a `uint64_t`.
unfoldable pub rate_product : RateLimits → ℕ → ℕ
rate_product l elapsed = l.max_hps * (elapsed + l.max_snapshot_age_us) % 2 ^ 64

-- The product in whole hashes, rounded up, and the burst slack.
unfoldable pub allowed_hashes : RateLimits → ℕ → ℕ
allowed_hashes l elapsed =
    let product = rate_product l elapsed in
    (if product % 1000000 == 0 then product / 1000000 else product / 1000000 + 1) + l.burst_slack

-- The snapshot is coherent, its tuple is the active one, and the limits bound a sample.
unfoldable pub rate_admissible : SessionState → Status → RateLimits → Bool
rate_admissible s st l =
    not (limits_bad l)
    && status_compatible st s.expected_build_id
    && has_flag st.flags Flag.active_valid
    && not (window_too_large l)
    && s.active_valid
    && tuple_equal (hw_tuple st) s.active

abbrev pub rate_anchor : SessionState → Status → ℕ → SessionState
rate_anchor s st now = record s { rate_completed = st.completed_hashes; rate_time_us = now }

-- The sample against a baseline of the same tuple; the numbers are `*completed_delta` and
-- `*elapsed_us`.
unfoldable pub rate_measure :
    SessionState → Status → ℕ → RateLimits → SessionState × RateDisposition × ℕ × ℕ
rate_measure s st now l =
    let elapsed = now - s.rate_time_us in
    let delta = st.completed_hashes - s.rate_completed in
    if leb now s.rate_time_us || ltb st.completed_hashes s.rate_completed
    then (s, RateDisposition.invalid, 0, 0)
    else if ltb l.max_interval_us elapsed
    then (
      record (rate_anchor s st now) { display_rate_valid = false },
      if not (st.completed_hashes == s.rate_completed)
          then RateDisposition.rebaseline_progress
          else RateDisposition.baseline,
      0,
      0,
    )
    else if st.completed_hashes == s.rate_completed
    then (s, RateDisposition.no_progress, 0, 0)
    else if ltb (allowed_hashes l elapsed) delta
    then (s, RateDisposition.invalid, 0, 0)
    else (rate_anchor s st now, RateDisposition.sample, delta, elapsed)

unfoldable pub rate_sample :
    SessionState → Status → ℕ → RateLimits → SessionState × RateDisposition × ℕ × ℕ
rate_sample s st now l =
    if not (rate_admissible s st l)
    then (s, RateDisposition.invalid, 0, 0)
    else if not s.rate_valid || not (tuple_equal s.rate_tuple (hw_tuple st))
    then (
      record s {
        rate_valid = true;
        rate_tuple = hw_tuple st;
        rate_completed = st.completed_hashes;
        rate_time_us = now;
        display_rate_valid = false;
      },
      RateDisposition.baseline,
      0,
      0,
    )
    else rate_measure s st now l

abbrev pub display_anchor : SessionState → Status → ℕ → SessionState
display_anchor s st now = record s {
  display_rate_completed = st.completed_hashes;
  display_rate_time_us = now;
}

unfoldable pub display_measure :
    SessionState → Status → ℕ → ℕ → RateLimits → SessionState × DisplayDisposition × ℕ × ℕ
display_measure s st now min_interval_us l =
    let elapsed = now - s.display_rate_time_us in
    let delta = st.completed_hashes - s.display_rate_completed in
    if leb now s.display_rate_time_us || ltb st.completed_hashes s.display_rate_completed
    then (s, DisplayDisposition.invalid, 0, 0)
    else if ltb l.max_interval_us elapsed
    then (display_anchor s st now, DisplayDisposition.baseline, 0, 0)
    else if st.completed_hashes == s.display_rate_completed || ltb elapsed min_interval_us
    then (s, DisplayDisposition.accumulating, 0, 0)
    else if ltb (allowed_hashes l elapsed) delta
    then (s, DisplayDisposition.invalid, 0, 0)
    else (display_anchor s st now, DisplayDisposition.sample, delta, elapsed)

-- `display_rate_sample` with its `min_interval_us`.
unfoldable pub display_rate_sample :
    SessionState → Status → ℕ → ℕ → RateLimits → SessionState × DisplayDisposition × ℕ × ℕ
display_rate_sample s st now min_interval_us l =
    if min_interval_us == 0 || ltb l.max_interval_us min_interval_us || not (rate_admissible s st l)
    then (s, DisplayDisposition.invalid, 0, 0)
    else if not s.display_rate_valid || not (tuple_equal s.display_rate_tuple (hw_tuple st))
    then (
      record s {
        display_rate_valid = true;
        display_rate_tuple = hw_tuple st;
        display_rate_completed = st.completed_hashes;
        display_rate_time_us = now;
      },
      DisplayDisposition.baseline,
      0,
      0,
    )
    else display_measure s st now min_interval_us l
