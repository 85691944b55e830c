-- ===== src/SafeIo/Work.antt =====
-- What a work retry reports, and what the device has been sent when it reports success.
use suprminer_fpga.Prelude.{
  ℕ, zero, suc, ◌+◌, ◌≤◌, ◌<◌, ◌≡◌, ◌≢◌, ◌⊎◌, inl, inr, refl, true, false, ◌||◌, ltb, leb, ◌==◌,
  is_zero, List, [], ◌∷◌, none, length, take, drop, All, ℤ, pos, negsuc, arith, Bool-cases,
}
use suprminer_fpga.SafeIo.{
  Ops, Attempt, Code, Stage, work80_max_attempts, is_exact, is_ok, attempt_init, select_fails,
  transfer_fails, alternate, result_of, work80_numbered, work80_next, work80_loop, work80_retry,
}

abbrev pub Failed : Attempt → Type 0
Failed a = is_ok a.outcome ≡ false

-- The attempts of an operation that succeeded: all but the last one failed.
abbrev pub EndsOk : List Attempt → Type 0
EndsOk [] = ⊥
EndsOk (a ∷ []) = is_ok a.outcome ≡ true
EndsOk (a ∷ b ∷ more) = Failed a × EndsOk (b ∷ more)

-- The ordinals count up from `n`.
abbrev pub Numbered : ℕ → List Attempt → Type 0
Numbered n [] = Unit {0}
Numbered n (a ∷ more) = (a.ordinal ≡ n) × Numbered (n + 1) more

pub alternate_other :
    (nlanes target : ℕ)
    → 2 ≤ nlanes
    → target < nlanes
    → (alternate nlanes target < nlanes) × (alternate nlanes target ≢ target)
unfolding alternate
alternate_other nlanes target two h = ground arith

pub EndsOk-cons : (a : Attempt) (more : List Attempt) → Failed a → EndsOk more → EndsOk (a ∷ more)
EndsOk-cons a [] f h = elim h [ ]
EndsOk-cons a (b ∷ more) f h = (f, h)

pub exact_rc : (rc : ℤ) (n : ℕ) → is_exact rc n ≡ true → rc ≡ pos n
exact_rc (pos m) n h = ground arith
exact_rc (negsuc m) n h = absurd (ground arith)

module _ {W : Type 0} (ops : Ops W) where
  -- The mux moved to `other`, a lane of the board that is not the target, and back to the target, and
  -- then both parts of the work were taken whole, each behind the one before it.
  pub record Sent (nlanes target : ℕ) (work : List ℕ) (final : W) : Type 0 where
    pub before : W
    pub other : ℕ
    pub on_board : other < nlanes
    pub not_target : other ≢ target
    pub moved_away : (ops.select_lane before other none).1 ≡ pos 0
    pub away : W
    pub away_is : away ≡ (ops.select_lane before other none).0
    pub moved_back : (ops.select_lane away target none).1 ≡ pos 0
    pub back : W
    pub back_is : back ≡ (ops.select_lane away target none).0
    pub first_part : (ops.write_bytes back (take 64 work)).1 ≡ pos 64
    pub half : W
    pub half_is : half ≡ (ops.write_bytes back (take 64 work)).0
    pub second_part : (ops.write_bytes half (drop 64 work)).1 ≡ pos 16
    pub final_is : final ≡ (ops.write_bytes half (drop 64 work)).0

  zero_rc : (rc : ℤ) → is_zero rc ≡ true → rc ≡ pos 0
  zero_rc (pos n) h = ground arith
  zero_rc (negsuc n) h = absurd (ground arith)

  transfer_not_ok :
      (a : Attempt) (stage : Stage) (rc : ℤ) (n : ℕ)
      → is_ok (transfer_fails a stage rc n).outcome ≡ false
  unfolding transfer_fails
  transfer_not_ok a stage (pos m) n = refl
  transfer_not_ok a stage (negsuc m) n = refl

  -- How one attempt ends, for a lane that exists.
  work80_numbered_cases :
      (w : W) (nlanes target : ℕ) (work : List ℕ) (ordinal : ℕ)
      → 2 ≤ nlanes
      → target < nlanes
      → let r = work80_numbered ops w nlanes target work ordinal in
        (r.1.ordinal ≡ ordinal)
        × ((is_ok r.1.outcome ≡ false) ⊎ (is_ok r.1.outcome ≡ true) × Sent nlanes target work r.0)
  unfolding work80_numbered attempt_init select_fails transfer_fails
  work80_numbered_cases w nlanes target work ordinal two h =
      let alt : ℕ = alternate nlanes target in
      let away = ops.select_lane w alt none in
      let back = ops.select_lane away.0 target none in
      let first = ops.write_bytes back.0 (take 64 work) in
      let second = ops.write_bytes first.0 (drop 64 work) in
      let valid : (ltb nlanes 2 || leb nlanes target) ≡ false = ground arith in
      elim (Bool-cases (is_zero away.1)) [
        | inr bad ↦ rw (valid, bad) (refl, inl refl)
        | inl a ↦ elim (Bool-cases (is_zero back.1)) [
          | inr bad ↦ rw (valid, a, bad) (refl, inl refl)
          | inl b ↦ elim (Bool-cases (is_exact first.1 64)) [
            | inr bad ↦
                rw (valid, a, b, bad)
                  (
                    refl,
                    inl (
                        unfold transfer_fails in
                        transfer_not_ok (attempt_init ordinal target alt) Stage.write_64 first.1
                          64),
                  )
            | inl c ↦ elim (Bool-cases (is_exact second.1 16)) [
              | inr bad ↦
                  rw (valid, a, b, c, bad)
                    (
                      refl,
                      inl (
                          unfold transfer_fails in
                          transfer_not_ok (attempt_init ordinal target alt) Stage.write_16 second.1
                            16),
                    )
              | inl d ↦
                  rw (valid, a, b, c, d)
                    (
                      refl,
                      inr (
                        refl,
                        record {
                          before = w;
                          other = alt;
                          on_board = (alternate_other nlanes target two h).0;
                          not_target = (alternate_other nlanes target two h).1;
                          moved_away = zero_rc away.1 a;
                          away = away.0;
                          away_is = refl;
                          moved_back = zero_rc back.1 b;
                          back = back.0;
                          back_is = refl;
                          first_part = exact_rc first.1 64 c;
                          half = first.0;
                          half_is = refl;
                          second_part = exact_rc second.1 16 d;
                          final_is = refl;
                        },
                      ),
                    )
            ]
          ]
        ]
      ]

  -- How the loop ends, with `r` rounds from an ordinal on.
  abbrev LoopEnds : ℕ → ℕ → ℕ → List ℕ → ℕ → W × Code × List Attempt → Type 0
  LoopEnds r nlanes target work ordinal l =
      (length l.2 ≤ r)
      × Numbered ordinal l.2
      × ((l.1 ≡ Code.ok) × EndsOk l.2 × Sent nlanes target work l.0
          ⊎ (l.1 ≡ Code.attempts_exhausted) × (length l.2 ≡ r) × All Failed l.2)

  next-LoopEnds :
      (r nlanes target : ℕ) (work : List ℕ) (ordinal : ℕ) (a : W × Attempt)
      (rest : W × Code × List Attempt)
      → a.1.ordinal ≡ ordinal
      → (is_ok a.1.outcome ≡ false) ⊎ (is_ok a.1.outcome ≡ true) × Sent nlanes target work a.0
      → LoopEnds r nlanes target work (ordinal + 1) rest
      → LoopEnds (suc r) nlanes target work ordinal (work80_next ops a rest)
  unfolding work80_next
  next-LoopEnds r nlanes target work ordinal a rest o (inr (good, sent)) more =
      rw good (omega arith, (o, tt), inl (refl, good, sent))
  next-LoopEnds r nlanes target work ordinal a rest o (inl bad)
        (len, numbered, inl (c, ends, sent)) =
      rw bad (omega (arith, len), (o, numbered), inl (c, EndsOk-cons a.1 rest.2 bad ends, sent))
  next-LoopEnds r nlanes target work ordinal a rest o (inl bad)
        (len, numbered, inr (c, all, failed)) =
      rw bad (omega (arith, len), (o, numbered), inr (c, omega (arith, all), (bad, failed)))

  loop-LoopEnds :
      (r : ℕ) (w : W) (nlanes target : ℕ) (work : List ℕ) (ordinal : ℕ)
      → 2 ≤ nlanes
      → target < nlanes
      → LoopEnds r nlanes target work ordinal (work80_loop ops r w nlanes target work ordinal)
  unfolding work80_loop
  loop-LoopEnds zero w nlanes target work ordinal two h = (omega arith, tt, inr (refl, refl, tt))
  loop-LoopEnds (suc r) w nlanes target work ordinal two h =
      let a = work80_numbered ops w nlanes target work ordinal in
      let (o, cases) = work80_numbered_cases w nlanes target work ordinal two h in
      next-LoopEnds r nlanes target work ordinal a _ o cases
        (loop-LoopEnds r a.0 nlanes target work (ordinal + 1) two h)

  -- For a lane of a board of two lanes or more, and one or two attempts: the retry always reaches a verdict.
  -- It records its attempts in order from 1, at most the maximum of them. Either it reports success, all
  -- attempts but the last failed, and the device ends in the state behind the mux moved to a lane of the
  -- board that is not the target, then moved back, and the work sent whole in its two parts; or it reports exhaustion, and each of the attempts, as many as
  -- the maximum, failed.
  pub work80_retry_lem :
      (w : W) (nlanes target : ℕ) (work : List ℕ) (max_attempts : ℕ)
      → 2 ≤ nlanes
      → target < nlanes
      → 0 < max_attempts
      → max_attempts ≤ work80_max_attempts
      → let r = work80_retry ops w nlanes target work max_attempts in
        (r.1.attempts ≡ length r.1.attempt)
        × (r.1.attempts ≤ max_attempts)
        × Numbered 1 r.1.attempt
        × ((r.1.code ≡ Code.ok) × EndsOk r.1.attempt × Sent nlanes target work r.0
            ⊎ (r.1.code ≡ Code.attempts_exhausted)
              × (r.1.attempts ≡ max_attempts)
              × All Failed r.1.attempt)
  unfolding work80_retry result_of
  work80_retry_lem w nlanes target work max_attempts two h pos_max low =
      let valid : (ltb nlanes 2
            || leb nlanes target
            || max_attempts == 0
            || ltb work80_max_attempts max_attempts)
          ≡ false =
        ground arith in
      let (len, numbered, ended) = loop-LoopEnds max_attempts w nlanes target work 1 two h in
      rw valid (refl, len, numbered, ended)
