-- ===== src/Shutdown.antt =====
-- bc3_ztex_shutdown.h: a worker is stopped by one token, and the stop succeeds only when it came back.
pub mod Handshake
mod Runs
use suprminer_fpga.Prelude.{
  is_zero, ℕ, ◌-◌, Bool, true, false, not, ◌&&◌, ◌||◌, ltb, leb, ◌==◌, if◌then◌else◌, ℤ, pos,
  negsuc,
}

pub record ShutdownState : Type 0 where
  pub stop_requested : Bool
  pub failure : Bool
  pub token_enqueued : Bool
  pub token_consumed : Bool
  pub token_enqueued_us : ℕ

unfoldable pub init : ShutdownState
init = record {
  stop_requested = false;
  failure = false;
  token_enqueued = false;
  token_consumed = false;
  token_enqueued_us = 0;
}

unfoldable pub request : ShutdownState → Bool → ShutdownState
request s failed = record s { stop_requested = true; failure = if failed then true else s.failure }

unfoldable pub can_enqueue : ShutdownState → Bool
can_enqueue s = s.stop_requested && not s.token_enqueued && not s.token_consumed

unfoldable pub mark_enqueued : ShutdownState → ℕ → ShutdownState × Bool
unfolding can_enqueue
mark_enqueued s now =
    if not (can_enqueue s) || now == 0
    then (s, false)
    else (record s { token_enqueued = true; token_enqueued_us = now }, true)

unfoldable pub mark_consumed : ShutdownState → ShutdownState × Bool
mark_consumed s =
    if not s.token_enqueued || s.token_consumed || s.token_enqueued_us == 0
    then (s, false)
    else (record s { token_consumed = true }, true)

unfoldable pub handshake_complete : ShutdownState → Bool
handshake_complete s = s.token_enqueued && s.token_consumed && not (s.token_enqueued_us == 0)

unfoldable pub deadline_armed : ShutdownState → Bool
deadline_armed s = s.token_enqueued && not s.token_consumed && not (s.token_enqueued_us == 0)

unfoldable pub expired : ShutdownState → ℕ → ℕ → Bool
unfolding deadline_armed
expired s now timeout =
    if not (deadline_armed s)
    then false
    else if timeout == 0 || ltb now s.token_enqueued_us
    then true
    else leb timeout (now - s.token_enqueued_us)

unfoldable pub final_success : ShutdownState → ℤ → Bool
unfolding handshake_complete
final_success s worker_result =
    is_zero worker_result && s.stop_requested && not s.failure && handshake_complete s
