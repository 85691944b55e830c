-- ===== src/Ladder/Runs.antt =====
-- Runs of the ladder, and concrete cases of its theorems.
use suprminer_fpga.Prelude.{
  ℕ, ◌≤◌, ◌<◌, ◌≡◌, ◌⊎◌, refl, Bool, true, false, List, [], ◌∷◌, some, pos, negsuc, arith,
}
use suprminer_fpga.Ladder.{
  Activation, activation_decide, display_mhz, rung_is_tainted, taint_rung, search_down, search_up,
  initial_rung, next_faster, Window, WindowAction, window_decide,
}
use suprminer_fpga.Ladder.Rungs.{Available, Missing, SmallestFrom, initial_rung_nearest}
use suprminer_fpga.Ladder.Governor.{clean_windows}

-- Images for rungs 1 and 3 of 5.
abbrev images : List Bool
images = false ∷ true ∷ false ∷ true ∷ false ∷ []

-- An image for the highest rung only.
abbrev faster_only : List Bool
faster_only = false ∷ false ∷ false ∷ false ∷ true ∷ []

initial_faster : initial_rung faster_only (pos 2) ≡ pos 4
unfolding initial_rung search_down search_up
initial_faster = refl

initial_below : initial_rung images (pos 2) ≡ pos 1
unfolding initial_rung search_down search_up
initial_below = refl

initial_above : initial_rung images (pos 0) ≡ pos 1
unfolding initial_rung search_down search_up
initial_above = refl

no_faster : next_faster images (pos 3) ≡ negsuc 0
unfolding next_faster search_up
no_faster = refl

tainted : taint_rung 0b101 5 (pos 1) ≡ some 0b111
unfolding taint_rung
tainted = refl

is_tainted : rung_is_tainted 0b111 5 (pos 1) ≡ true
unfolding rung_is_tainted
is_tainted = refl

one_image : activation_decide true false 1 ≡ Activation.reject_insufficient_images
unfolding activation_decide
one_image = refl

legacy_clock : display_mhz false (pos 49) ≡ 200
unfolding display_mhz
legacy_clock = refl

initial_rung_nearest_example :
    ((r : ℕ) × (initial_rung faster_only (pos 2) ≡ pos r)
      × (r ≤ 2)
      × Available faster_only r
      × ((j : ℕ) → r < j → j ≤ 2 → Missing faster_only j))
    ⊎ (((j : ℕ) → j ≤ 2 → Missing faster_only j)
        × SmallestFrom faster_only 3 5 (initial_rung faster_only (pos 2)))
initial_rung_nearest_example = initial_rung_nearest faster_only 2 (omega arith)

abbrev clean_window : Window
clean_window = record { checks = 20; errors = 0; faster_available = true; faster_tainted = false }

abbrev four_windows : List Window
four_windows = clean_window ∷ clean_window ∷ clean_window ∷ clean_window ∷ []

fifth_probes : (window_decide clean_window (clean_windows four_windows)).0 ≡ WindowAction.probe_up
unfolding window_decide clean_windows
fifth_probes = refl
