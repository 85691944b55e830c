-- ===== src/Transport/Runs.antt =====
-- Runs of the transport, and concrete cases of its theorems.
use suprminer_fpga.Prelude.{◌≡◌, refl, true, false, List, [], ◌∷◌}
use suprminer_fpga.Transport.{
  init, next_generation, begin_connect, mark_connected, mark_authenticated, can_control, can_share,
  job_usable, submission_is_stale,
}
use suprminer_fpga.Transport.Phases.{
  Event, begins, poisons, connects, authenticates, step, run, run-Inv, Trusted,
  can_share_needs_handshake, connects_stays, authenticates_stays, poisons_stays, run_from,
  reconnect_retires_job,
}

-- A handshake, in which the authentication of another attempt is refused.
abbrev history : List Event
history = authenticates 1 ∷ authenticates 9 ∷ connects 1 ∷ begins ∷ []

history_shares : can_share (run history) ≡ true
unfolding can_share run step init begin_connect next_generation mark_connected mark_authenticated
history_shares = refl

history_generation : (run history).generation ≡ 1
unfolding can_share run step init begin_connect next_generation mark_connected mark_authenticated
history_generation = refl

-- Without the connection no authentication is accepted.
skipped_connection : can_control (run (authenticates 1 ∷ begins ∷ [])) ≡ false
unfolding can_control run step init begin_connect next_generation mark_connected mark_authenticated
skipped_connection = refl

generation_wraps : next_generation 0xffff_ffff_ffff_ffff ≡ 1
unfolding next_generation
generation_wraps = refl

old_share : submission_is_stale true false true true ≡ true
unfolding submission_is_stale
old_share = refl

can_share_needs_handshake_example : Trusted (run history).generation history
can_share_needs_handshake_example = can_share_needs_handshake history history_shares

history_job : job_usable (run history) 1 ≡ true
unfolding job_usable can_share run step init begin_connect next_generation mark_connected
    mark_authenticated
history_job = refl

reconnect_retires_job_example :
    job_usable
      (run_from (begin_connect (run history)).0 (connects 2 ∷ authenticates 2 ∷ poisons ∷ []))
      1
    ≡ false
reconnect_retires_job_example =
    reconnect_retires_job (run history) 1 (connects 2 ∷ authenticates 2 ∷ poisons ∷ [])
      (run-Inv history) history_job (connects_stays 2, (authenticates_stays 2, (poisons_stays, tt)))
