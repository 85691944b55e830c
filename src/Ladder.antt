-- ===== src/Ladder.antt =====
-- sha3_variant_ladder.h: which fixed-clock image to run, stepping down on errors and probing up.
-- An array of flags is the list of its `count` entries; a rung is an `int`.
pub mod Rungs
pub mod Governor
mod Runs
use suprminer_fpga.Prelude.{
  ℕ, zero, suc, ◌+◌, ◌-◌, ◌*◌, ◌%◌, ◌^◌, Bool, true, false, not, ◌&&◌, ◌||◌, ltb, leb, ◌==◌,
  if◌then◌else◌, List, [], ◌∷◌, Option, none, some, length, get_or, bit_and, bit_or, ℤ, pos, negsuc,
}

abbrev pub min_window_checks : ℕ
min_window_checks = 20

abbrev pub clean_windows_for_probe : ℕ
clean_windows_for_probe = 5

pub data WindowAction : Type 0 where
  hold step_down probe_up : WindowAction

pub data Activation : Type 0 where
  disabled ready reject_override reject_insufficient_images : Activation

-- Arguments: automatic frequency, an explicit override, the number of images.
unfoldable pub activation_decide : Bool → Bool → ℕ → Activation
activation_decide auto_frequency explicit_override available_images =
    if not auto_frequency
    then disabled
    else if explicit_override
    then reject_override
    else if ltb available_images 2
    then reject_insufficient_images
    else ready

-- The unsigned result wraps at 2 ^ 32.
unfoldable pub display_mhz : Bool → ℤ → ℕ
display_mhz variant_mode (negsuc n) = 0
display_mhz variant_mode (pos stored) = if variant_mode then stored else (stored + 1) * 4 % 2 ^ 32

unfoldable pub rung_is_tainted : ℕ → ℕ → ℤ → Bool
rung_is_tainted mask count (negsuc n) = false
rung_is_tainted mask count (pos rung) =
    leb count 32 && ltb rung count && not (bit_and mask (2 ^ rung) == 0)

-- The new mask; `none` for `false`.
unfoldable pub taint_rung : ℕ → ℕ → ℤ → Option ℕ
taint_rung mask count (negsuc n) = none
taint_rung mask count (pos rung) =
    if ltb 32 count || leb count rung then none else some (bit_or mask (2 ^ rung))

-- `for (; rung >= 0; --rung)`, over `rung + 1` rounds.
unfoldable pub search_down : List Bool → ℕ → ℤ
search_down available zero = negsuc 0
search_down available (suc rung) =
    let rest = search_down available rung in if get_or available rung false then pos rung else rest

-- `for (; rung < count; ++rung)`, over `count - rung` rounds.
unfoldable pub search_up : List Bool → ℕ → ℕ → ℤ
search_up available zero rung = negsuc 0
search_up available (suc r) rung =
    let rest = search_up available r (suc rung) in
    if get_or available rung false then pos rung else rest

abbrev pub is_rung : ℤ → Bool
is_rung (pos n) = true
is_rung (negsuc n) = false

unfoldable pub initial_rung : List Bool → ℤ → ℤ
initial_rung available (negsuc n) = negsuc 0
initial_rung available (pos preferred) =
    let slower = search_down available (suc preferred) in
    if length available == 0 || leb (length available) preferred
    then negsuc 0
    else if is_rung slower
    then slower
    else search_up available (length available - suc preferred) (suc preferred)

unfoldable pub next_slower : List Bool → ℤ → ℤ
next_slower available (negsuc n) = negsuc 0
next_slower available (pos current) =
    if length available == 0 || current == 0 || leb (length available) current
    then negsuc 0
    else search_down available current

unfoldable pub next_faster : List Bool → ℤ → ℤ
next_faster available (negsuc n) = negsuc 0
next_faster available (pos current) =
    if length available == 0 || leb (length available) current
    then negsuc 0
    else search_up available (length available - suc current) (suc current)

-- One window of CPU-checked results, and what is known of the next faster image.
pub record Window : Type 0 where
  pub checks : ℕ
  pub errors : ℕ
  pub faster_available : Bool
  pub faster_tainted : Bool

-- The action, and `*clean_windows` after it.
unfoldable pub window_decide : Window → ℕ → WindowAction × ℕ
window_decide w clean =
    let counted = if ltb clean clean_windows_for_probe then suc clean else clean in
    if ltb 0 w.errors
    then (step_down, 0)
    else if ltb w.checks min_window_checks
    then (hold, 0)
    else if not w.faster_available || w.faster_tainted
    then (hold, 0)
    else if leb clean_windows_for_probe counted
    then (probe_up, 0)
    else (hold, counted)
