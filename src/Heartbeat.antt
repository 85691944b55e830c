-- ===== src/Heartbeat.antt =====
-- bc3_ztex_heartbeat_policy.h: when the short heartbeat interval of the canary may be used. A text is
-- `none` for NULL, or the list of its bytes before the terminating NUL; pointers to the state that an
-- option writes are non-null.
pub mod Texts
pub mod Policy
mod Runs
use suprminer_fpga.Prelude.{
  is_zero, ℕ, ◌+◌, ◌-◌, ◌*◌, ◌/◌, Bool, true, false, not, ◌&&◌, ◌||◌, ltb, leb, ◌==◌, if◌then◌else◌,
  List, [], ◌∷◌, Option, none, some, length, get_or, ℤ, pos, negsuc,
}

abbrev pub default_seconds : ℕ
default_seconds = 30

abbrev pub canary_seconds : ℕ
canary_seconds = 20

abbrev pub canary_serial_max : ℕ
canary_serial_max = 10

abbrev pub canary_bitstream_max : ℕ
canary_bitstream_max = 255

-- "TEST000002".
abbrev pub canary_serial : List ℕ
canary_serial = b'T' ∷ b'E' ∷ b'S' ∷ b'T' ∷ b'0' ∷ b'0' ∷ b'0' ∷ b'0' ∷ b'0' ∷ b'2' ∷ []

pub data PolicyResult : Type 0 where
  ok internal duplicate interval algorithm device_mode serial lane : PolicyResult
  bitstream api firmware auto_freq ztex_freq hash_clock : PolicyResult

pub record Scope : Type 0 where
  pub option_seen : Bool
  pub interval_seconds : ℕ
  pub algorithm_sha3t : Bool
  pub use_ztex : Bool
  pub use_cpu : Bool
  pub use_serial : Bool
  pub serial_only : Option (List ℕ)
  pub fpga_only : Option (List ℕ)
  pub bitstream_name : Option (List ℕ)
  pub api_listen : ℤ
  pub force_firmware : Bool
  pub auto_frequency : Bool
  pub ztex_frequency_explicit : Bool
  pub ztex_frequency_exact_96 : Bool
  pub hash_clock_explicit : Bool
  pub hash_clock_exact_96 : Bool

-- The loop of the parser from `parsed` on; `none` is an early `return false`.
unfoldable pub seconds_loop : List ℕ → ℕ → Option ℕ
seconds_loop [] parsed = some parsed
seconds_loop (c ∷ cs) parsed =
    let rest = seconds_loop cs (parsed * 10 + (c - b'0')) in
    if ltb c b'0' || ltb b'9' c
    then none
    else if ltb ((canary_seconds - (c - b'0')) / 10) parsed
    then none
    else rest

-- The tests after the loop.
unfoldable pub seconds_result : List ℕ → Option ℕ → Option ℕ
seconds_result text none = none
seconds_result text (some parsed) =
    if not (length text == 2)
      || not (get_or text 0 0 == b'2')
      || not (get_or text 1 0 == b'0')
      || not (parsed == canary_seconds)
    then none
    else some parsed

-- `none` for `false`.
unfoldable pub parse_canary_seconds : Option (List ℕ) → Option ℕ
parse_canary_seconds none = none
parse_canary_seconds (some []) = none
parse_canary_seconds (some (c ∷ cs)) = seconds_result (c ∷ cs) (seconds_loop (c ∷ cs) 0)

-- The result, `*seen` and `*seconds` after it.
unfoldable pub option_apply : Option (List ℕ) → Bool → ℕ → PolicyResult × Bool × ℕ
option_apply text seen seconds = elim (parse_canary_seconds text) [
  | none ↦
      if seen
      then (PolicyResult.duplicate, seen, seconds)
      else (PolicyResult.interval, seen, seconds)
  | some parsed ↦
      if seen then (PolicyResult.duplicate, seen, seconds) else (PolicyResult.ok, true, parsed)
]

abbrev pub serial_char : ℕ → Bool
serial_char c =
    (leb b'0' c && leb c b'9')
    || (leb b'A' c && leb c b'Z')
    || (leb b'a' c && leb c b'z')
    || c == b'-'
    || c == b'_'

unfoldable pub serial_loop : List ℕ → Bool
serial_loop [] = true
serial_loop (c ∷ cs) = let rest = serial_loop cs in if not (serial_char c) then false else rest

unfoldable pub serial_is_safe : Option (List ℕ) → Bool
serial_is_safe none = false
serial_is_safe (some text) =
    if length text == 0 || ltb canary_serial_max (length text) then false else serial_loop text

-- `strchr(text, c) != NULL`.
unfoldable pub has_char : ℕ → List ℕ → Bool
has_char c [] = false
has_char c (x ∷ xs) = x == c || has_char c xs

-- `strstr(text, "..") != NULL`.
unfoldable pub has_dots : List ℕ → Bool
has_dots [] = false
has_dots (x ∷ xs) = (x == b'.' && get_or xs 0 0 == b'.') || has_dots xs

unfoldable pub bitstream_is_safe : Option (List ℕ) → Bool
bitstream_is_safe none = false
bitstream_is_safe (some name) =
    ltb 0 (length name)
    && leb (length name) canary_bitstream_max
    && not (has_char b'/' name)
    && not (has_char 92 name)
    && not (has_dots name)

-- `strcmp(a, b) == 0`.
unfoldable pub bytes_equal : List ℕ → List ℕ → Bool
bytes_equal [] [] = true
bytes_equal (x ∷ xs) (y ∷ ys) = x == y && bytes_equal xs ys
bytes_equal _ _ = false

-- A text that is there and equal to another one.
unfoldable pub text_is : Option (List ℕ) → List ℕ → Bool
text_is none b = false
text_is (some a) b = bytes_equal a b

unfoldable pub policy_validate : Scope → PolicyResult
policy_validate s =
    if not s.option_seen
    then if s.interval_seconds == default_seconds then PolicyResult.ok else PolicyResult.interval
    else if not (s.interval_seconds == canary_seconds)
    then PolicyResult.interval
    else if not s.algorithm_sha3t
    then PolicyResult.algorithm
    else if not s.use_ztex || s.use_cpu || s.use_serial
    then PolicyResult.device_mode
    else if not (serial_is_safe s.serial_only) || not (text_is s.serial_only canary_serial)
    then PolicyResult.serial
    else if not (text_is s.fpga_only (b'0' ∷ []))
    then PolicyResult.lane
    else if not (bitstream_is_safe s.bitstream_name)
    then PolicyResult.bitstream
    else if not (is_zero s.api_listen)
    then PolicyResult.api
    else if s.force_firmware
    then PolicyResult.firmware
    else if s.auto_frequency
    then PolicyResult.auto_freq
    else if not s.ztex_frequency_explicit || not s.ztex_frequency_exact_96
    then PolicyResult.ztex_freq
    else if not s.hash_clock_explicit || not s.hash_clock_exact_96
    then PolicyResult.hash_clock
    else PolicyResult.ok
