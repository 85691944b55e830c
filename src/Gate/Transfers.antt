-- ===== src/Gate/Transfers.antt =====
-- The two frames of a work, each sent whole behind a lane that was selected for it.
use suprminer_fpga.Prelude.{
  ℕ, zero, suc, ◌-◌, ◌≤◌, ◌≡◌, ◌≢◌, ◌⊎◌, inl, inr, refl, ap, true, false, ◌&&◌, ltb, leb, ◌==◌,
  List, [], ◌∷◌, length, take, drop, ℤ, pos, negsuc, arith, Bool-cases,
}
use suprminer_fpga.Gate.{IoOps, short_error, exact_rc, send_selected, is_sent, send_work_pair}

length-take : (n : ℕ) (xs : List ℕ) → n ≤ length xs → length (take n xs) ≡ n
length-take zero xs h = refl
length-take (suc n) [] h = absurd (omega arith)
length-take (suc n) (x ∷ xs) h = ap suc (length-take n xs (omega arith))

length-drop : (n : ℕ) (xs : List ℕ) → length (drop n xs) ≡ length xs - n
length-drop zero xs = omega arith
length-drop (suc n) [] = omega arith
length-drop (suc n) (x ∷ xs) = omega (arith, length-drop n xs)

-- What the transport returned, and what became of it: an error, a part of a frame, or the whole frame.
exact_rc_cases :
    (rc : ℤ)
    → ((e : ℕ) × (rc ≡ negsuc e) × (exact_rc rc 64 ≡ negsuc e))
      ⊎ ((m : ℕ) × (rc ≡ pos m) × (m ≢ 64) × (exact_rc rc 64 ≡ short_error))
      ⊎ (exact_rc rc 64 ≡ pos 64) × (rc ≡ pos 64)
unfolding exact_rc
exact_rc_cases (negsuc e) = inl (e, refl, refl)
exact_rc_cases (pos m) = elim (Bool-cases (m == 64)) [
  | inl all ↦ let e : m ≡ 64 = ground arith in inr (inr (rw e refl, ap pos e))
  | inr part ↦ inr (inl (m, refl, ground arith, rw part refl))
]

module _ {W : Type 0} (ops : IoOps W) where
  -- The lane was selected, and then the transport took the whole frame.
  pub record FrameSent (w : W) (lane : ℕ) (frame : List ℕ) (after : W) : Type 0 where
    pub selected : (ops.select_lane w lane).1 ≡ true
    pub chosen : W
    pub chosen_is : chosen ≡ (ops.select_lane w lane).0
    pub whole : (ops.send_exact chosen frame).1 ≡ pos 64
    pub after_is : after ≡ (ops.send_exact chosen frame).0

  -- The lane was refused, or the transport took less than the whole frame, with the error code of it.
  pub data NotSent (w : W) (lane : ℕ) (frame : List ℕ) (after : W) (rc : ℤ) : Type 0 where
    refused :
        (ops.select_lane w lane).1 ≡ false
        → after ≡ (ops.select_lane w lane).0
        → rc ≡ negsuc 10000
        → NotSent w lane frame after rc
    failed :
        (e : ℕ)
        → (ops.select_lane w lane).1 ≡ true
        → (ops.send_exact (ops.select_lane w lane).0 frame).1 ≡ negsuc e
        → after ≡ (ops.send_exact (ops.select_lane w lane).0 frame).0
        → rc ≡ negsuc e
        → NotSent w lane frame after rc
    short :
        (m : ℕ)
        → (ops.select_lane w lane).1 ≡ true
        → (ops.send_exact (ops.select_lane w lane).0 frame).1 ≡ pos m
        → m ≢ 64
        → after ≡ (ops.send_exact (ops.select_lane w lane).0 frame).0
        → rc ≡ negsuc 98
        → NotSent w lane frame after rc

  NotSent-unsent :
      {w : W} {lane : ℕ} {frame : List ℕ} {after : W} {rc : ℤ}
      → NotSent w lane frame after rc
      → is_sent ops rc ≡ false
  NotSent-unsent (refused s a c) = rw c refl
  NotSent-unsent (failed e s t a c) = rw c refl
  NotSent-unsent (short m s t n a c) = rw c refl

  send_selected_cases :
      (w : W) (lane : ℕ) (frame : List ℕ)
      → length frame ≡ 64
      → let r = send_selected ops w lane frame in
        NotSent w lane frame r.0 r.1 ⊎ (r.1 ≡ pos 64) × FrameSent w lane frame r.0
  unfolding send_selected
  send_selected_cases w lane frame len =
      let s = ops.select_lane w lane in
      let valid : (ltb 0 (length frame) && leb (length frame) 64) ≡ true = ground arith in
      elim (Bool-cases s.1) [
        | inr none_chosen ↦ rw (valid, none_chosen) (inl (refused none_chosen refl refl))
        | inl chosen ↦ elim (exact_rc_cases (ops.send_exact s.0 frame).1) [
          | inl (e, rc, bad) ↦ rw (valid, chosen, len) (inl (failed e chosen rc refl bad))
          | inr (inl (m, rc, part, bad)) ↦
              rw (valid, chosen, len) (inl (short m chosen rc part refl bad))
          | inr (inr (rc, whole)) ↦
              rw (valid, chosen, len)
                (inr (
                  rc,
                  record {
                    selected = chosen;
                    chosen = s.0;
                    chosen_is = refl;
                    whole = whole;
                    after_is = refl;
                  },
                ))
        ]
      ]

  -- For two frames of 64 bytes in a row there are three cases. Both frames were taken whole, in order and
  -- each behind a lane that was selected for it: the answer is true, with the fragment 2 and the code 0.
  -- The lane was refused for the first frame, or not all of it was taken: the answer is false, with the
  -- fragment 0 and the error code, and the device is in the state behind that failure. The first frame
  -- was taken whole, and the second one failed in this way behind it: false, with the fragment 1 and the
  -- error code.
  pub send_work_pair_lem :
      (w : W) (lane : ℕ) (frames : List ℕ)
      → length frames ≡ 128
      → let r = send_work_pair ops w lane frames in
        let front : List ℕ = take 64 frames in
        let back : List ℕ = take 64 (drop 64 frames) in
        ((r.1 ≡ true)
          × (r.2 ≡ 2)
          × (r.3 ≡ pos 0)
          × ((half : W) × FrameSent w lane front half × FrameSent half lane back r.0))
        ⊎ (r.1 ≡ false) × (r.2 ≡ 0) × NotSent w lane front r.0 r.3
        ⊎ (r.1 ≡ false)
          × (r.2 ≡ 1)
          × ((half : W) × FrameSent w lane front half × NotSent half lane back r.0 r.3)
  unfolding send_work_pair
  send_work_pair_lem w lane frames len =
      let front = length-take 64 frames (omega (arith, len)) in
      let back = length-take 64 (drop 64 frames) (omega (arith, len, length-drop 64 frames)) in
      let first = send_selected ops w lane (take 64 frames) in
      elim (send_selected_cases w lane (take 64 frames) front) [
        | inl bad ↦ rw (NotSent-unsent bad) (inr (inl (refl, refl, bad)))
        | inr (rc, sent) ↦ elim (send_selected_cases first.0 lane (take 64 (drop 64 frames)) back) [
          | inl bad ↦ rw (rc, NotSent-unsent bad) (inr (inr (refl, refl, (first.0, sent, bad))))
          | inr (rc2, sent2) ↦ rw (rc, rc2) (inl (refl, refl, refl, (first.0, sent, sent2)))
        ]
      ]
