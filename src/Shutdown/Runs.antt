-- ===== src/Shutdown/Runs.antt =====
-- Runs of the stop handshake, and concrete cases of its theorems.
use suprminer_fpga.Prelude.{is_zero, ℕ, ◌≡◌, ◌↔◌, refl, true, false, List, [], ◌∷◌, pos, negsuc}
use suprminer_fpga.Shutdown.{
  init, request, can_enqueue, mark_enqueued, mark_consumed, handshake_complete, deadline_armed,
  expired, final_success,
}
use suprminer_fpga.Shutdown.Handshake.{
  Event, requests, enqueues, consumes, step, run, Consumed, Unfailing, final_success_iff,
}

-- The newest call stands first.
abbrev history : List Event
history = consumes ∷ enqueues 50 ∷ requests false ∷ []

history_succeeds : final_success (run history) (pos 0) ≡ true
unfolding final_success handshake_complete run step init request can_enqueue mark_enqueued
    mark_consumed
history_succeeds = refl

failed_worker : final_success (run history) (negsuc 0) ≡ false
unfolding final_success handshake_complete run step init request can_enqueue mark_enqueued
    mark_consumed
failed_worker = refl

-- A token that is consumed before it was enqueued does not count.
early_consumption :
    final_success (run (enqueues 50 ∷ consumes ∷ requests false ∷ [])) (pos 0) ≡ false
unfolding final_success handshake_complete run step init request can_enqueue mark_enqueued
    mark_consumed
early_consumption = refl

token_out : expired (run (enqueues 50 ∷ requests false ∷ [])) 150 100 ≡ true
unfolding expired deadline_armed run step init request can_enqueue mark_enqueued
token_out = refl

final_success_iff_example :
    (final_success (run history) (pos 0) ≡ true)
    ↔ ((is_zero (pos 0) ≡ true) × Consumed history × Unfailing history)
final_success_iff_example = final_success_iff history (pos 0)

abbrev timeout_us : ℕ
timeout_us = 100
