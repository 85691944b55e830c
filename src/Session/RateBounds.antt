-- ===== src/Session/RateBounds.antt =====
-- What a sample may report, and that the bound is computed without overflow.
use suprminer_fpga.Prelude.{
  ℕ, ◌+◌, ◌-◌, ◌*◌, ◌/◌, ◌≤◌, ◌<◌, ◌≡◌, refl, Bool, true, false, not, ◌||◌, ltb, ◌==◌, ◌⊎◌,
  uint32_max, arith, and_parts, Bool-cases, inl, inr,
}
use native.Mathlib.Nat.{mul-le-mul_left, mul-div-le, le_trans}
use suprminer_fpga.Protocol.{Status, has_flag}
use suprminer_fpga.Protocol.Flag
use suprminer_fpga.Session.{SessionState, tuple_equal, hw_tuple}
use suprminer_fpga.Session.Compatible.{status_compatible}
use suprminer_fpga.Session.Rate.{
  RateDisposition, RateLimits, limits_bad, window_too_large, rate_product, allowed_hashes,
  rate_admissible, rate_anchor, rate_measure, rate_sample, display_measure, display_rate_sample,
  DisplayDisposition,
}

-- Within the window that the limits allow, the product stays below its budget.
product_fits :
    (l : RateLimits) (elapsed : ℕ)
    → window_too_large l ≡ false
    → elapsed ≤ l.max_interval_us
    → l.max_hps * (elapsed + l.max_snapshot_age_us) ≤ (uint32_max - 1 - l.burst_slack) * 1000000
unfolding window_too_large
product_fits l elapsed small h =
    let budget = (uint32_max - 1 - l.burst_slack) * 1000000 in
    let inside : elapsed + l.max_snapshot_age_us ≤ budget / l.max_hps = ground arith in
    le_trans (mul-le-mul_left l.max_hps inside) (mul-div-le budget l.max_hps)

-- When the limits pass their two tests and the slack is a `uint32_t`, for every elapsed time in the
-- window the 64-bit product does not wrap, and the allowance is the product in whole hashes,
-- rounded up, plus the slack; it stays below the largest counter value.
pub allowed_hashes_exact :
    (l : RateLimits) (elapsed : ℕ)
    → limits_bad l ≡ false
    → window_too_large l ≡ false
    → l.burst_slack ≤ uint32_max
    → elapsed ≤ l.max_interval_us
    → let product = l.max_hps * (elapsed + l.max_snapshot_age_us) in
      (rate_product l elapsed ≡ product)
      × (product ≤ (allowed_hashes l elapsed - l.burst_slack) * 1000000)
      × ((allowed_hashes l elapsed - l.burst_slack) * 1000000 < product + 1000000)
      × (l.burst_slack ≤ allowed_hashes l elapsed)
      × (allowed_hashes l elapsed < uint32_max)
unfolding allowed_hashes rate_product limits_bad
allowed_hashes_exact l elapsed ok small slack h = ground (arith, product_fits l elapsed small h)

-- What a published sample says, from the baseline `completed`, `time` of the state before it.
pub record IsBounded (l : RateLimits) (completed time completed' time' delta elapsed : ℕ)
    : Type 0 where
  pub counted : completed + delta ≡ completed'
  pub timed : time + elapsed ≡ time'
  pub progress : 0 < delta
  pub passed : 0 < elapsed
  pub recent : elapsed ≤ l.max_interval_us
  pub plausible :
      delta * 1000000
      < l.max_hps * (elapsed + l.max_snapshot_age_us) + (l.burst_slack + 1) * 1000000
  pub unwrapped : delta < uint32_max

rate_measure_sample :
    (s : SessionState) (st : Status) (now : ℕ) (l : RateLimits)
    → limits_bad l ≡ false
    → window_too_large l ≡ false
    → l.burst_slack ≤ uint32_max
    → (rate_measure s st now l).1 ≡ RateDisposition.sample
    → let r = rate_measure s st now l in
      IsBounded l s.rate_completed s.rate_time_us st.completed_hashes now r.2 r.3
      × (r.0 ≡ rate_anchor s st now)
unfolding rate_measure
rate_measure_sample s st now l ok small slack h =
    ground (arith, allowed_hashes_exact l (now - s.rate_time_us) ok small slack)

admissible_parts :
    (s : SessionState) (st : Status) (l : RateLimits)
    → rate_admissible s st l ≡ true
    → (limits_bad l ≡ false)
      × (window_too_large l ≡ false)
      × (status_compatible st s.expected_build_id ≡ true)
      × (has_flag st.flags Flag.active_valid ≡ true)
      × (s.active_valid ≡ true)
      × (tuple_equal (hw_tuple st) s.active ≡ true)
unfolding rate_admissible
admissible_parts s st l h =
    let (r0, same) = and_parts _ _ h in
    let (r1, valid) = and_parts _ _ r0 in
    let (r2, small) = and_parts _ _ r1 in
    let (r3, flag) = and_parts _ _ r2 in
    let (ok, compatible) = and_parts _ _ r3 in
    (not_true _ ok, not_true _ small, compatible, flag, valid, same)
  where
    not_true : (b : Bool) → not b ≡ true → b ≡ false
    not_true true e = cc
    not_true false e = refl

-- For a slack that is a `uint32_t`, a sample that is published counts completions of the active
-- tuple only, since the baseline of that tuple; it is no more than the qualified rate allows over
-- the elapsed time and one snapshot age, plus the slack, and the baseline moves to this snapshot.
pub rate_sample-IsBounded :
    (s : SessionState) (st : Status) (now : ℕ) (l : RateLimits)
    → l.burst_slack ≤ uint32_max
    → (rate_sample s st now l).1 ≡ RateDisposition.sample
    → let r = rate_sample s st now l in
      IsBounded l s.rate_completed s.rate_time_us st.completed_hashes now r.2 r.3
      × (s.rate_tuple ≡ hw_tuple st)
      × (s.active ≡ hw_tuple st)
      × (r.0 ≡ rate_anchor s st now)
unfolding rate_sample
rate_sample-IsBounded s st now l slack h = elim (Bool-cases (rate_admissible s st l)) [
  | inr bad ↦ absurd (ground (arith, bad))
  | inl good ↦
      let (ok, small, _, _, _, same) = admissible_parts s st l good in
      elim (Bool-cases (not s.rate_valid || not (tuple_equal s.rate_tuple (hw_tuple st)))) [
        | inl fresh ↦ absurd (ground (arith, good, fresh))
        | inr kept ↦
            let m : (rate_measure s st now l).1 ≡ RateDisposition.sample = ground arith in
            let (b, e) = rate_measure_sample s st now l ok small slack m in
            rw (good, kept) (b, ground arith, ground arith, e)
      ]
]

-- A sample that is refused, and one without progress, change nothing and report nothing.
pub rate_refusal_keeps :
    (s : SessionState) (st : Status) (now : ℕ) (l : RateLimits)
    → ((rate_sample s st now l).1 ≡ RateDisposition.invalid)
      ⊎ ((rate_sample s st now l).1 ≡ RateDisposition.no_progress)
    → rate_sample s st now l ≡ (s, (rate_sample s st now l).1, 0, 0)
unfolding rate_sample rate_measure
rate_refusal_keeps s st now l h = ground arith

display_measure_sample :
    (s : SessionState) (st : Status) (now min_interval_us : ℕ) (l : RateLimits)
    → limits_bad l ≡ false
    → window_too_large l ≡ false
    → l.burst_slack ≤ uint32_max
    → (display_measure s st now min_interval_us l).1 ≡ DisplayDisposition.sample
    → let r = display_measure s st now min_interval_us l in
      IsBounded l s.display_rate_completed s.display_rate_time_us st.completed_hashes now r.2 r.3
      × (min_interval_us ≤ r.3)
unfolding display_measure
display_measure_sample s st now min_interval_us l ok small slack h =
    ground (arith, allowed_hashes_exact l (now - s.display_rate_time_us) ok small slack)

-- For a slack that is a `uint32_t`, a displayed rate comes from one window of at least the minimal
-- interval, under the same bound with a single snapshot age.
pub display_sample-IsBounded :
    (s : SessionState) (st : Status) (now min_interval_us : ℕ) (l : RateLimits)
    → l.burst_slack ≤ uint32_max
    → (display_rate_sample s st now min_interval_us l).1 ≡ DisplayDisposition.sample
    → let r = display_rate_sample s st now min_interval_us l in
      IsBounded l s.display_rate_completed s.display_rate_time_us st.completed_hashes now r.2 r.3
      × (min_interval_us ≤ r.3)
unfolding display_rate_sample
display_sample-IsBounded s st now min_interval_us l slack h =
    elim (Bool-cases (
      min_interval_us == 0
      || ltb l.max_interval_us min_interval_us
      || not (rate_admissible s st l))) [
        | inl bad ↦ absurd (ground (arith, bad))
        | inr good ↦
            let (ok, small, _, _, _, _) = admissible_parts s st l (ground arith) in
            elim (Bool-cases
              (not s.display_rate_valid || not (tuple_equal s.display_rate_tuple (hw_tuple st)))) [
                | inl fresh ↦ absurd (ground (arith, good, fresh))
                | inr kept ↦
                    let m : (display_measure s st now min_interval_us l).1
                        ≡ DisplayDisposition.sample =
                      ground arith in
                    rw (good, kept)
                      (display_measure_sample s st now min_interval_us l ok small slack m)
              ]
      ]
