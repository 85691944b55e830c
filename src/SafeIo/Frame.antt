-- ===== src/SafeIo/Frame.antt =====
-- ztex_safe_io.c: what a bounded read of a frame from a lane gives.
use suprminer_fpga.Prelude.{
  ℕ, ◌≤◌, true, false, ◌≡◌, ◌≢◌, ◌⊎◌, All, List, Option, none, some, length, pos,
}
use suprminer_fpga.SafeIo.{Ops, Attempt, Code, frame16_size, is_ok, is_late, expired, FrameEnd}
use suprminer_fpga.SafeIo.Work.{Failed, EndsOk, Numbered}

module _ {W : Type 0} (ops : Ops W) where
  -- A read of the lane gave the sixteen bytes of the frame, and the deadline was not over at the two
  -- tests of the clock behind it.
  pub record Delivered (deadline : Option ℕ) (frame : Option (List ℕ)) (final : W) : Type 0 where
    pub before : W
    pub whole : (ops.read_bytes before frame16_size deadline).2 ≡ pos 16
    pub frame_is : frame ≡ some (ops.read_bytes before frame16_size deadline).1
    pub read_end : W
    pub read_end_is : read_end ≡ (ops.read_bytes before frame16_size deadline).0
    pub in_time : (expired ops read_end deadline).1 ≡ false
    pub attempt_end : W
    pub attempt_end_is : attempt_end ≡ (expired ops read_end deadline).0
    pub still_in_time : (expired ops attempt_end deadline).1 ≡ false
    pub final_is : final ≡ (expired ops attempt_end deadline).0

  -- The part of it that one attempt is responsible for.
  record Taken (deadline : Option ℕ) (frame : Option (List ℕ)) (after : W) : Type 0 where
    before : W
    whole : (ops.read_bytes before frame16_size deadline).2 ≡ pos 16
    frame_is : frame ≡ some (ops.read_bytes before frame16_size deadline).1
    read_end : W
    read_end_is : read_end ≡ (ops.read_bytes before frame16_size deadline).0
    in_time : (expired ops read_end deadline).1 ≡ false
    after_is : after ≡ (expired ops read_end deadline).0

  -- A transfer that fails is neither a success nor late.
  abbrev Lost : Attempt → Type 0
  Lost a = (is_ok a.outcome ≡ false) × (is_late a.outcome ≡ false)

  -- How one attempt ends.
  abbrev AttemptEnds : Option ℕ → W × Attempt × Option (List ℕ) → Type 0
  AttemptEnds deadline r =
      (is_late r.1.outcome ≡ false) × (is_ok r.1.outcome ≡ true) × Taken deadline r.2 r.0
      ⊎ (Lost r.1 ⊎ (is_late r.1.outcome ≡ true) × (is_ok r.1.outcome ≡ false) × (deadline ≢ none))

  -- How the loop ends, with `r` rounds from an ordinal on.
  abbrev LoopEnds : ℕ → Option ℕ → ℕ → FrameEnd ops → Type 0
  LoopEnds r deadline ordinal l =
      (length l.3 ≤ r)
      × Numbered ordinal l.3
      × ((l.1 ≡ Code.ok) × EndsOk l.3 × Delivered deadline l.2 l.0
          ⊎ (l.2 ≡ none)
            × ((l.1 ≡ Code.attempts_exhausted) × (length l.3 ≡ r) × All Failed l.3
                ⊎ (l.1 ≡ Code.deadline_expired) × (deadline ≢ none)))
