-- ===== src/Session/Runs.antt =====
-- Runs of a session, and concrete cases of its theorems.
use suprminer_fpga.Prelude.{◌≡◌, refl, true, false, [], ◌∷◌, some, none, arith}
use suprminer_fpga.Protocol.Flag
use suprminer_fpga.Protocol.Samples.{busy, with_result}
use suprminer_fpga.Session.{
  SessionState, WorkTuple, WorkSlot, zero_tuple, session_init, begin_offer, lookup, hw_tuple,
  visible_head, promote, reconcile_active, reconcile,
}
use suprminer_fpga.Session.Compatible.{
  status_header_bad, status_body_bad, status_compatible, status_healthy,
}
use suprminer_fpga.Session.Identity.{SessionReach, Inv, SessionReach-Inv}
use suprminer_fpga.Session.Rate.{
  RateDisposition, DisplayDisposition, RateLimits, limits_bad, window_too_large, rate_product,
  allowed_hashes, rate_admissible, rate_anchor, rate_measure, rate_sample, display_measure,
  display_rate_sample,
}
use suprminer_fpga.Session.RateBounds.{IsBounded, rate_sample-IsBounded}

-- A new session of build 0xbeef, and the same once epoch 1 is on offer.
abbrev fresh_session : SessionState
fresh_session = record {
  expected_build_id = 0xbeef;
  session = 5;
  next_epoch = 1;
  active_valid = false;
  pending_valid = false;
  active = zero_tuple;
  pending = zero_tuple;
  rate_valid = false;
  rate_tuple = zero_tuple;
  rate_completed = 0;
  rate_time_us = 0;
  display_rate_valid = false;
  display_rate_tuple = zero_tuple;
  display_rate_completed = 0;
  display_rate_time_us = 0;
}

abbrev first_work : WorkTuple
first_work = record { session = 5; epoch = 1 }

abbrev offered : SessionState
offered = record fresh_session { pending = first_work; next_epoch = 2; pending_valid = true }

started : session_init 0xbeef 5 ≡ some fresh_session
unfolding session_init
started = refl

first_offer : begin_offer fresh_session ≡ (offered, some first_work)
unfolding begin_offer
first_offer = refl

-- A second offer waits until the first is active.
second_offer : begin_offer offered ≡ (offered, none)
unfolding begin_offer
second_offer = refl

sample_healthy : status_healthy with_result 0xbeef ≡ true
unfolding status_healthy status_compatible status_header_bad status_body_bad
sample_healthy = refl

switch : reconcile offered with_result ≡ (promote offered, some (WorkSlot.pending, true))
unfolding reconcile reconcile_active status_compatible status_header_bad status_body_bad
    visible_head lookup promote
switch = refl

SessionReach-Inv_example : Inv 5 (reconcile offered with_result).0 (1 ∷ [])
SessionReach-Inv_example = SessionReach-Inv (
    SessionReach.reconciles with_result
      (SessionReach.offers (SessionReach.starts started) first_offer))

-- The rate: a baseline at 1000 µs, and 500 hashes in the next millisecond.
abbrev limits : RateLimits
limits = record {
  max_interval_us = 1000000;
  max_hps = 1000000;
  max_snapshot_age_us = 1000;
  burst_slack = 10;
}

abbrev anchored : SessionState
anchored = record fresh_session {
  active_valid = true;
  active = first_work;
  rate_valid = true;
  rate_tuple = first_work;
  rate_completed = 100;
  rate_time_us = 1000;
  display_rate_valid = true;
  display_rate_tuple = first_work;
  display_rate_completed = 100;
  display_rate_time_us = 1000;
}

sampled :
    rate_sample anchored (busy 600) 2000 limits
    ≡ (rate_anchor anchored (busy 600) 2000, RateDisposition.sample, 500, 1000)
unfolding rate_sample rate_measure rate_admissible limits_bad window_too_large status_compatible
    status_header_bad status_body_bad allowed_hashes rate_product
sampled = refl

is_sample : (rate_sample anchored (busy 600) 2000 limits).1 ≡ RateDisposition.sample
is_sample = rw sampled refl

-- One hash more than the rate allows is refused.
too_many : (rate_sample anchored (busy 2111) 2000 limits).1 ≡ RateDisposition.invalid
unfolding rate_sample rate_measure rate_admissible limits_bad window_too_large status_compatible
    status_header_bad status_body_bad allowed_hashes rate_product
too_many = refl

rate_sample-IsBounded_example :
    let r = rate_sample anchored (busy 600) 2000 limits in
    IsBounded limits 100 1000 600 2000 r.2 r.3
    × (anchored.rate_tuple ≡ hw_tuple (busy 600))
    × (anchored.active ≡ hw_tuple (busy 600))
    × (r.0 ≡ rate_anchor anchored (busy 600) 2000)
rate_sample-IsBounded_example =
    rate_sample-IsBounded anchored (busy 600) 2000 limits (omega arith) is_sample

limits_fine : limits_bad limits ≡ false
unfolding limits_bad
limits_fine = refl

window_fine : window_too_large limits ≡ false
unfolding window_too_large
window_fine = refl

displayed : (display_rate_sample anchored (busy 600) 2000 500 limits).1 ≡ DisplayDisposition.sample
unfolding display_rate_sample display_measure rate_admissible limits_bad window_too_large
    status_compatible status_header_bad status_body_bad allowed_hashes rate_product
displayed = refl
