-- ===== src/Progress/Runs.antt =====
-- Runs of the progress check, and concrete cases of its theorems.
use suprminer_fpga.Prelude.{◌≡◌, ◌↔◌, refl, true, [], ◌∷◌, some}
use suprminer_fpga.Protocol.Samples.{busy}
use suprminer_fpga.Progress.{
  ProgressDisposition, ProgressState, progress_init, key_from_status, status_key, classify_key,
  classify, mark_verified,
}
use suprminer_fpga.Progress.Verified.{Reach, Holds, Rising, Reach-Rising, classify_iff_mark}

abbrev old_state : ProgressState
old_state = record {
  verified_valid = true;
  verified = record { session = 9; epoch = 9; generation = 9; nonce = 8; hash7 = 9 };
}

abbrev one_verified : ProgressState
one_verified = (mark_verified (progress_init old_state) (busy 100) (status_key (busy 100))).0

abbrev two_verified : ProgressState
two_verified = (mark_verified one_verified (busy 600) (status_key (busy 600))).0

first_marked :
    mark_verified (progress_init old_state) (busy 100) (status_key (busy 100))
    ≡ (one_verified, true)
unfolding mark_verified key_from_status progress_init
first_marked = refl

second_marked : mark_verified one_verified (busy 600) (status_key (busy 600)) ≡ (two_verified, true)
unfolding mark_verified key_from_status progress_init
second_marked = refl

-- A diagnostic that goes back is refused.
going_back : (classify two_verified (busy 100)).0 ≡ ProgressDisposition.invalid
unfolding classify classify_key mark_verified key_from_status progress_init
going_back = refl

first_verified :
    (mark_verified (progress_init old_state) (busy 100) (status_key (busy 100))).1 ≡ true
unfolding mark_verified key_from_status progress_init
first_verified = refl

Reach-Rising_example :
    Holds two_verified (status_key (busy 600) ∷ status_key (busy 100) ∷ [])
    × Rising (status_key (busy 600) ∷ status_key (busy 100) ∷ [])
Reach-Rising_example = Reach-Rising (
    Reach.marks (busy 600) (status_key (busy 600))
      (Reach.marks (busy 100) (status_key (busy 100)) Reach.starts first_marked) second_marked)

classify_iff_mark_example :
    (classify one_verified (busy 600) ≡ (ProgressDisposition.fresh, some (status_key (busy 600))))
    ↔ ((mark_verified one_verified (busy 600) (status_key (busy 600))).1 ≡ true)
classify_iff_mark_example = classify_iff_mark one_verified (busy 600) (status_key (busy 600))
