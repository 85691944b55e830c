-- ===== src/SafeIo.antt =====
-- ztex_safe_io.h and ztex_safe_io.c: bounded attempts to send work to a lane and to read a frame from it.
-- The transport is a parameter: its callbacks act on a state `W` of the outside, and each returns what
-- the C callback returns. All callbacks are set, and pointers are non-null.
pub mod Work
pub mod Frame
mod Runs
use suprminer_fpga.Prelude.{
  ℕ, zero, suc, ◌+◌, ◌-◌, Bool, true, false, not, ◌&&◌, ◌||◌, ltb, leb, ◌==◌, if◌then◌else◌,
  is_zero, List, [], ◌∷◌, Option, none, some, length, take, drop, ℤ, pos, negsuc,
}

-- A deadline is an absolute time in microseconds, or `none` for NULL.
pub record Ops (W : Type 0) : Type 0 where
  pub select_lane : W → ℕ → Option ℕ → W × ℤ
  pub write_bytes : W → List ℕ → W × ℤ
  pub read_bytes : W → ℕ → Option ℕ → W × List ℕ × ℤ
  pub monotonic_us : W → W × ℕ
  pub sleep_us : W → ℕ → W

abbrev pub work80_max_attempts : ℕ
work80_max_attempts = 2

abbrev pub frame16_size : ℕ
frame16_size = 16

abbrev pub frame16_max_attempts : ℕ
frame16_max_attempts = 5

pub data Stage : Type 0 where
  no_stage select_away select_target write_64 write_16 read_16 complete : Stage

pub data Outcome : Type 0 where
  ok invalid_argument select_failed nonexact_transfer io_error deadline_expired : Outcome

pub record Attempt : Type 0 where
  pub ordinal : ℕ
  pub target_lane : ℕ
  pub alternate_lane : ℕ
  pub terminal_stage : Stage
  pub outcome : Outcome
  pub io_rc : ℤ
  pub requested : ℕ
  pub select_calls : ℕ
  pub transfer_calls : ℕ
  pub exact_bytes_completed : ℕ

pub data Code : Type 0 where
  ok invalid_argument attempts_exhausted deadline_expired : Code

pub record IoResult : Type 0 where
  pub code : Code
  pub attempts : ℕ
  pub retries : ℕ
  pub max_attempts : ℕ
  pub attempt : List Attempt

pub record FramePolicy : Type 0 where
  pub max_attempts : ℕ
  pub retry_delay_us : ℕ
  pub deadline : Option ℕ

-- `rc == n` for a byte count, and `rc < 0`.
abbrev pub is_exact : ℤ → ℕ → Bool
is_exact (pos m) n = m == n
is_exact (negsuc m) n = false

abbrev pub is_negative : ℤ → Bool
is_negative (pos m) = false
is_negative (negsuc m) = true

unfoldable pub attempt_init : ℕ → ℕ → ℕ → Attempt
attempt_init ordinal target_lane alternate_lane = record {
  ordinal = ordinal;
  target_lane = target_lane;
  alternate_lane = alternate_lane;
  terminal_stage = no_stage;
  outcome = Outcome.invalid_argument;
  io_rc = pos 0;
  requested = 0;
  select_calls = 0;
  transfer_calls = 0;
  exact_bytes_completed = 0;
}

unfoldable pub select_fails : Attempt → Stage → ℤ → Attempt
select_fails a stage rc = record a {
  terminal_stage = stage;
  outcome = Outcome.select_failed;
  io_rc = rc;
  requested = 0;
}

unfoldable pub transfer_fails : Attempt → Stage → ℤ → ℕ → Attempt
transfer_fails a stage rc requested = record a {
  terminal_stage = stage;
  outcome = if is_negative rc then Outcome.io_error else Outcome.nonexact_transfer;
  io_rc = rc;
  requested = requested;
}

unfoldable pub deadline_fails : Attempt → Stage → ℤ → ℕ → Attempt
deadline_fails a stage rc requested = record a {
  terminal_stage = stage;
  outcome = Outcome.deadline_expired;
  io_rc = rc;
  requested = requested;
}

abbrev pub is_ok : Outcome → Bool
is_ok Outcome.ok = true
is_ok _ = false

abbrev pub is_late : Outcome → Bool
is_late Outcome.deadline_expired = true
is_late _ = false

unfoldable pub alternate : ℕ → ℕ → ℕ
alternate nlanes target =
    if leb 2 nlanes && ltb target nlanes
    then if target == nlanes - 1 then 0 else target + 1
    else target

unfoldable pub result_of : Code → ℕ → List Attempt → IoResult
result_of code max_attempts attempts = record {
  code = code;
  attempts = length attempts;
  retries = length attempts - 1;
  max_attempts = max_attempts;
  attempt = attempts;
}

module _ {W : Type 0} (ops : Ops W) where
  unfoldable pub work80_numbered : W → ℕ → ℕ → List ℕ → ℕ → W × Attempt
  work80_numbered w nlanes target work ordinal =
      let start = attempt_init ordinal target (alternate nlanes target) in
      let away = ops.select_lane w (alternate nlanes target) none in
      let back = ops.select_lane away.0 target none in
      let first = ops.write_bytes back.0 (take 64 work) in
      let second = ops.write_bytes first.0 (drop 64 work) in
      if ltb nlanes 2 || leb nlanes target
      then (w, start)
      else if not (is_zero away.1)
      then (away.0, select_fails (record start { select_calls = 1 }) select_away away.1)
      else if not (is_zero back.1)
      then (back.0, select_fails (record start { select_calls = 2 }) select_target back.1)
      else if not (is_exact first.1 64)
      then (
        first.0,
        transfer_fails (record start { select_calls = 2; transfer_calls = 1 }) write_64 first.1 64,
      )
      else if not (is_exact second.1 16)
      then (
        second.0,
        transfer_fails
            (record start { select_calls = 2; transfer_calls = 2; exact_bytes_completed = 64 })
            write_16 second.1 16,
      )
      else (
        second.0,
        record start {
          select_calls = 2;
          transfer_calls = 2;
          exact_bytes_completed = 80;
          terminal_stage = complete;
          outcome = Outcome.ok;
          io_rc = second.1;
          requested = 16;
        },
      )

  unfoldable pub work80_attempt : W → ℕ → ℕ → List ℕ → W × Attempt
  work80_attempt w nlanes target work = work80_numbered w nlanes target work 1

  -- An attempt that succeeds ends the loop; what follows a failed one is `rest`.
  unfoldable pub work80_next : W × Attempt → W × Code × List Attempt → W × Code × List Attempt
  work80_next a rest =
      if is_ok a.1.outcome then (a.0, Code.ok, a.1 ∷ []) else (rest.0, rest.1, a.1 ∷ rest.2)

  -- The loop of `ztex_safe_work80_retry`, with the rounds that are left.
  unfoldable pub work80_loop : ℕ → W → ℕ → ℕ → List ℕ → ℕ → W × Code × List Attempt
  work80_loop zero w nlanes target work ordinal = (w, Code.attempts_exhausted, [])
  work80_loop (suc r) w nlanes target work ordinal =
      let a = work80_numbered w nlanes target work ordinal in
      work80_next a (work80_loop r a.0 nlanes target work (ordinal + 1))

  unfoldable pub work80_retry : W → ℕ → ℕ → List ℕ → ℕ → W × IoResult
  work80_retry w nlanes target work max_attempts =
      let l = work80_loop max_attempts w nlanes target work 1 in
      if ltb nlanes 2
        || leb nlanes target
        || max_attempts == 0
        || ltb work80_max_attempts max_attempts
      then (w, result_of Code.invalid_argument max_attempts [])
      else (l.0, result_of l.1 max_attempts l.2)

  unfoldable pub expired : W → Option ℕ → W × Bool
  expired w none = (w, false)
  expired w (some at) = let c = ops.monotonic_us w in (c.0, leb at c.1)

  -- The outside, the attempt, and the frame if it was updated.
  unfoldable pub frame16_numbered : W → ℕ → ℕ → ℕ → Option ℕ → W × Attempt × Option (List ℕ)
  unfolding expired
  frame16_numbered w nlanes target ordinal deadline =
      let start = attempt_init ordinal target target in
      let selected : Attempt = record start { select_calls = 1 } in
      let c0 = expired w deadline in
      let s = ops.select_lane c0.0 target deadline in
      let c1 = expired s.0 deadline in
      let c2 = expired c1.0 deadline in
      let r = ops.read_bytes c2.0 frame16_size deadline in
      let transferred : Attempt = record selected {
        transfer_calls = 1;
        exact_bytes_completed = if is_exact r.2 frame16_size then frame16_size else 0;
      } in
      let c3 = expired r.0 deadline in
      if nlanes == 0 || leb nlanes target
      then (w, start, none)
      else if c0.1
      then (c0.0, deadline_fails start select_target (pos 0) 0, none)
      else if c1.1
      then (c1.0, deadline_fails selected select_target s.1 0, none)
      else if not (is_zero s.1)
      then (c1.0, select_fails selected select_target s.1, none)
      else if c2.1
      then (c2.0, deadline_fails selected read_16 (pos 0) frame16_size, none)
      else if c3.1
      then (c3.0, deadline_fails transferred read_16 r.2 frame16_size, none)
      else if not (is_exact r.2 frame16_size)
      then (c3.0, transfer_fails transferred read_16 r.2 frame16_size, none)
      else (
        c3.0,
        record transferred {
          terminal_stage = complete;
          outcome = Outcome.ok;
          io_rc = r.2;
          requested = frame16_size;
        },
        some r.1,
      )

  unfoldable pub frame16_attempt : W → ℕ → ℕ → W × Attempt × Option (List ℕ)
  frame16_attempt w nlanes target = frame16_numbered w nlanes target 1 none

  -- The pause between two attempts, and whether the deadline is over.
  unfoldable pub frame16_pause : W → ℕ → Option ℕ → ℕ → W × Bool
  frame16_pause w rounds none delay =
      if rounds == 0 || delay == 0 then (w, false) else (ops.sleep_us w delay, false)
  frame16_pause w rounds (some at) delay =
      let c = ops.monotonic_us w in
      if rounds == 0 || delay == 0
      then (w, false)
      else if leb at c.1
      then (c.0, true)
      else (ops.sleep_us c.0 (if ltb (at - c.1) delay then at - c.1 else delay), false)

  -- The outside, the code, the frame if it was updated, the attempts.
  abbrev pub FrameEnd : Type 0
  FrameEnd = W × Code × Option (List ℕ) × List Attempt

  -- What follows an attempt: `post` is the test of the deadline, `pause` the pause.
  unfoldable pub frame16_next :
      W × Attempt × Option (List ℕ) → W × Bool → W × Bool → FrameEnd → FrameEnd
  frame16_next a post pause rest =
      if is_late a.1.outcome
      then (a.0, Code.deadline_expired, none, a.1 ∷ [])
      else if post.1
      then (post.0, Code.deadline_expired, none, a.1 ∷ [])
      else if is_ok a.1.outcome
      then (post.0, Code.ok, a.2, a.1 ∷ [])
      else if pause.1
      then (pause.0, Code.deadline_expired, none, a.1 ∷ [])
      else (rest.0, rest.1, rest.2, a.1 ∷ rest.3)

  unfoldable pub frame16_begin : W × Bool → FrameEnd → FrameEnd
  frame16_begin pre rest = if pre.1 then (pre.0, Code.deadline_expired, none, []) else rest

  -- The loop of `ztex_safe_frame16_retry`, with the rounds that are left.
  unfoldable pub frame16_loop : ℕ → W → ℕ → ℕ → FramePolicy → ℕ → FrameEnd
  unfolding frame16_numbered frame16_pause frame16_next frame16_begin
  frame16_loop zero w nlanes target policy ordinal = (w, Code.attempts_exhausted, none, [])
  frame16_loop (suc r) w nlanes target policy ordinal =
      let pre = expired w policy.deadline in
      let a = frame16_numbered pre.0 nlanes target ordinal policy.deadline in
      let post = expired a.0 policy.deadline in
      let pause = frame16_pause post.0 r policy.deadline policy.retry_delay_us in
      frame16_begin pre
        (frame16_next a post pause (frame16_loop r pause.0 nlanes target policy (ordinal + 1)))

  unfoldable pub frame16_retry : W → ℕ → ℕ → FramePolicy → W × IoResult × Option (List ℕ)
  frame16_retry w nlanes target policy =
      let l = frame16_loop policy.max_attempts w nlanes target policy 1 in
      if nlanes == 0
        || leb nlanes target
        || policy.max_attempts == 0
        || ltb frame16_max_attempts policy.max_attempts
      then (w, result_of Code.invalid_argument policy.max_attempts [], none)
      else (l.0, result_of l.1 policy.max_attempts l.3, l.2)
