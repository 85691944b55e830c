-- ===== src/Heartbeat/Runs.antt =====
-- Runs of the policy, and concrete cases of its theorems.
use suprminer_fpga.Prelude.{ℕ, ◌≡◌, refl, Bool, true, false, List, [], ◌∷◌, none, some, pos}
use suprminer_fpga.Heartbeat.{
  canary_serial, PolicyResult, Scope, seconds_loop, seconds_result, parse_canary_seconds,
  serial_loop, serial_is_safe, has_char, has_dots, bitstream_is_safe, bytes_equal, text_is,
  policy_validate,
}

abbrev twenty : List ℕ
twenty = b'2' ∷ b'0' ∷ []

abbrev canary : Scope
canary = record {
  option_seen = true;
  interval_seconds = 20;
  algorithm_sha3t = true;
  use_ztex = true;
  use_cpu = false;
  use_serial = false;
  serial_only = some canary_serial;
  fpga_only = some (b'0' ∷ []);
  bitstream_name = some (b'c' ∷ b'.' ∷ b'b' ∷ b'i' ∷ b't' ∷ []);
  api_listen = pos 0;
  force_firmware = false;
  auto_frequency = false;
  ztex_frequency_explicit = true;
  ztex_frequency_exact_96 = true;
  hash_clock_explicit = true;
  hash_clock_exact_96 = true;
}

canary_accepted : policy_validate canary ≡ PolicyResult.ok
unfolding policy_validate serial_is_safe serial_loop text_is bytes_equal bitstream_is_safe has_char
    has_dots
canary_accepted = refl

-- A name with two dots in a row, and one with a separator.
parent_folder : bitstream_is_safe (some (b'.' ∷ b'.' ∷ b'b' ∷ [])) ≡ false
unfolding bitstream_is_safe has_char has_dots
parent_folder = refl

other_folder :
    policy_validate (record canary { bitstream_name = some (b'a' ∷ b'/' ∷ b'b' ∷ []) })
    ≡ PolicyResult.bitstream
unfolding policy_validate serial_is_safe serial_loop text_is bytes_equal bitstream_is_safe has_char
    has_dots
other_folder = refl

leading_zero : parse_canary_seconds (some (b'0' ∷ twenty)) ≡ none
unfolding parse_canary_seconds seconds_result seconds_loop
leading_zero = refl

twenty_parsed : parse_canary_seconds (some twenty) ≡ some 20
unfolding parse_canary_seconds seconds_result seconds_loop
twenty_parsed = refl

abbrev first_time : Bool
first_time = false
