-- ===== src/Gate.antt =====
-- bc3_ztex_gate.h, bc3_ztex_work.h and bc3_ztex_io.h: which builds and snapshots are let through, the
-- payload of a work, and the exact transfers behind a selected lane. The transport is a parameter: its
-- callbacks act on a state `W` of the outside. All callbacks are set, and pointers are non-null.
pub mod BuildId
pub mod Payload
pub mod Transfers
pub mod Snapshots
mod Runs
use suprminer_fpga.Prelude.{
  ℕ, zero, suc, ◌+◌, ◌-◌, ◌*◌, ◌/◌, ◌%◌, ◌^◌, Bool, true, false, not, ◌&&◌, ◌||◌, ltb, leb, ◌==◌,
  if◌then◌else◌, List, [], ◌∷◌, ◌++◌, Option, none, some, ◌>>=◌, length, get_or, take, drop, bit_or,
  bit_and, ℤ, pos, negsuc,
}
use suprminer_fpga.Protocol.{Status, type_status, has_flag}
use suprminer_fpga.Protocol.Flag
use suprminer_fpga.Session.Compatible.{status_compatible, status_healthy}

abbrev pub supported_build_id : ℕ
supported_build_id = 0x34

unfoldable pub build_id_supported : ℕ → Bool
build_id_supported build_id = build_id == supported_build_id

-- `none` for -1.
unfoldable pub hex_value : ℕ → Option ℕ
hex_value c =
    if leb b'0' c && leb c b'9'
    then some (c - b'0')
    else if leb b'a' c && leb c b'f'
    then some (10 + (c - b'a'))
    else if leb b'A' c && leb c b'F'
    then some (10 + (c - b'A'))
    else none

-- `(value << 4) | digit`, with the operands of `|` in the other order.
abbrev pub shift_in : ℕ → ℕ → ℕ
shift_in value digit = bit_or digit (value % 2 ^ 28 * 2 ^ 4)

-- The loop over the digits.
unfoldable pub build_id_loop : List ℕ → ℕ → Option ℕ
build_id_loop [] value = some value
build_id_loop (c ∷ text) value = hex_value c >>= λ digit. build_id_loop text (shift_in value digit)

unfoldable pub build_id_result : Option ℕ → Option ℕ
build_id_result none = none
build_id_result (some value) = if value == 0 then none else some value

abbrev pub has_0x : List ℕ → Bool
has_0x text =
    length text == 10
    && get_or text 0 0 == b'0'
    && (get_or text 1 0 == b'x' || get_or text 1 0 == b'X')

unfoldable pub parse_build_id : List ℕ → Option ℕ
parse_build_id text =
    if has_0x text
    then build_id_result (build_id_loop (drop 2 text) 0)
    else if not (length text == 8)
    then none
    else build_id_result (build_id_loop text 0)

unfoldable pub startup_status_ok : Status → ℕ → Bool
startup_status_ok s expected_build_id =
    status_healthy s expected_build_id
    && s.frame_type == type_status
    && s.flags == Flag.paused
    && s.occupancy == 0
    && s.completed_hashes == 0
    && s.progress_generation == 0
    && s.progress_nonce == 0
    && s.progress_hash7 == 0

abbrev pub drained : ℕ
drained = bit_or (bit_or Flag.pause_latched Flag.paused) Flag.quiesced

unfoldable pub quiesced_empty_status_ok : Status → ℕ → Bool
quiesced_empty_status_ok s expected_build_id =
    status_compatible s expected_build_id
    && bit_and s.flags drained == drained
    && not (has_flag s.flags Flag.head_valid)
    && s.frame_type == type_status
    && s.occupancy == 0

abbrev pub header_prefix_words : ℕ
header_prefix_words = 19

abbrev pub target_high_word : ℕ
target_high_word = 7

abbrev pub put_be32 : ℕ → List ℕ
put_be32 v = v / 2 ^ 24 % 2 ^ 8 ∷ v / 2 ^ 16 % 2 ^ 8 ∷ v / 2 ^ 8 % 2 ^ 8 ∷ v % 2 ^ 8 ∷ []

-- The loop over the first `n` words.
unfoldable pub pack_words : ℕ → List ℕ → List ℕ
pack_words zero words = []
pack_words (suc n) [] = []
pack_words (suc n) (w ∷ words) = put_be32 w ++ pack_words n words

-- A word array is the list of its words; `none` is `false`.
unfoldable pub pack_work : List ℕ → List ℕ → Option (List ℕ)
pack_work header_words target_words =
    if leb (length header_words) header_prefix_words || leb (length target_words) target_high_word
    then none
    else some (
        pack_words header_prefix_words header_words
        ++ put_be32 (get_or target_words target_high_word 0))

abbrev pub select_error : ℤ
select_error = negsuc 10000

abbrev pub invalid_error : ℤ
invalid_error = negsuc 10001

abbrev pub short_error : ℤ
short_error = negsuc 98

pub record IoOps (W : Type 0) : Type 0 where
  pub select_lane : W → ℕ → W × Bool
  pub send_exact : W → List ℕ → W × ℤ
  pub read_exact : W → ℕ → W × List ℕ × ℤ

abbrev pub valid_length : ℕ → Bool
valid_length n = ltb 0 n && leb n 64

-- What a transfer's return value becomes: a short transfer is an error too.
unfoldable pub exact_rc : ℤ → ℕ → ℤ
exact_rc (negsuc e) n = negsuc e
exact_rc (pos m) n = if m == n then pos m else short_error

module _ {W : Type 0} (ops : IoOps W) where
  unfoldable pub send_selected : W → ℕ → List ℕ → W × ℤ
  send_selected w lane frame =
      let s = ops.select_lane w lane in
      let r = ops.send_exact s.0 frame in
      if not (valid_length (length frame))
      then (w, invalid_error)
      else if not s.1
      then (s.0, select_error)
      else (r.0, exact_rc r.1 (length frame))

  unfoldable pub read_selected : W → ℕ → ℕ → W × List ℕ × ℤ
  read_selected w lane n =
      let s = ops.select_lane w lane in
      let r = ops.read_exact s.0 n in
      if not (valid_length n)
      then (w, [], invalid_error)
      else if not s.1
      then (s.0, [], select_error)
      else (r.0, r.1, exact_rc r.2 n)

  -- `rc == 64` for a frame that was sent.
  abbrev pub is_sent : ℤ → Bool
  is_sent (pos m) = m == 64
  is_sent (negsuc e) = false

  -- The answer, the failed fragment and the error code.
  unfoldable pub send_work_pair : W → ℕ → List ℕ → W × Bool × ℕ × ℤ
  send_work_pair w lane frames =
      let first = send_selected w lane (take 64 frames) in
      let second = send_selected first.0 lane (take 64 (drop 64 frames)) in
      if not (is_sent first.1)
      then (first.0, false, 0, first.1)
      else if not (is_sent second.1)
      then (second.0, false, 1, second.1)
      else (second.0, true, 2, pos 0)
