-- ===== src/SafeIo/Runs.antt =====
-- Runs of the bounded attempts on a small device, and concrete cases of their theorems.
use suprminer_fpga.Prelude.{
  ℕ, ◌+◌, ◌≤◌, ◌≡◌, ◌⊎◌, refl, ltb, if◌then◌else◌, List, none, some, length, replicate, pos, All,
  arith,
}
use suprminer_fpga.SafeIo.{
  Ops, Code, result_of, work80_loop, work80_next, work80_numbered, transfer_fails, deadline_fails,
  frame16_loop, FramePolicy, work80_retry, frame16_retry,
}
use suprminer_fpga.SafeIo.Work.{Failed, EndsOk, Numbered, Sent, work80_retry_lem}

-- The outside is a clock that every call moves on. Before time 4 the device takes one byte less than it
-- was sent, and gives three bytes of a frame.
abbrev slow_start : Ops ℕ
slow_start = record {
  select_lane = λ w lane deadline. (w + 1, pos 0);
  write_bytes = λ w bytes. (w + 1, if ltb w 4 then pos 0 else pos (length bytes));
  read_bytes = λ w n deadline.
      (w + 1, if ltb w 4 then replicate 3 7 else replicate n 9, if ltb w 4 then pos 3 else pos n);
  monotonic_us = λ w. (w + 1, w);
  sleep_us = λ w delay. w + delay;
}

abbrev work : List ℕ
work = replicate 80 1

abbrev patient : FramePolicy
patient = record { max_attempts = 5; retry_delay_us = 10; deadline = none }

abbrev hurried : FramePolicy
hurried = record { max_attempts = 5; retry_delay_us = 10; deadline = some 6 }

-- The first attempt ends at its first part, the second one sends both.
work_code : (work80_retry slow_start 0 3 1 work 2).1.code ≡ Code.ok
unfolding work80_retry result_of work80_loop work80_next work80_numbered transfer_fails
work_code = refl

work_attempts : (work80_retry slow_start 0 3 1 work 2).1.attempts ≡ 2
unfolding work80_retry result_of work80_loop work80_next work80_numbered transfer_fails
work_attempts = refl

-- With one attempt the retry is exhausted.
work_exhausted : (work80_retry slow_start 0 3 1 work 1).1.code ≡ Code.attempts_exhausted
unfolding work80_retry result_of work80_loop work80_next work80_numbered transfer_fails
work_exhausted = refl

frame_read : (frame16_retry slow_start 0 3 1 patient).2 ≡ some (replicate 16 9)
unfolding frame16_retry frame16_loop transfer_fails result_of deadline_fails
frame_read = refl

frame_late : (frame16_retry slow_start 0 3 1 hurried).1.code ≡ Code.deadline_expired
unfolding frame16_retry frame16_loop transfer_fails result_of deadline_fails
frame_late = refl

work80_retry_lem_example :
    let r = work80_retry slow_start 0 3 1 work 2 in
    (r.1.attempts ≡ length r.1.attempt)
    × (r.1.attempts ≤ 2)
    × Numbered 1 r.1.attempt
    × ((r.1.code ≡ Code.ok) × EndsOk r.1.attempt × Sent slow_start 3 1 work r.0
        ⊎ (r.1.code ≡ Code.attempts_exhausted) × (r.1.attempts ≡ 2) × All Failed r.1.attempt)
work80_retry_lem_example =
    work80_retry_lem slow_start 0 3 1 work 2 (omega arith) (omega arith) (omega arith) (omega arith)
