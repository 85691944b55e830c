-- ===== src/Protocol/Runs.antt =====
-- Runs of the codec, and concrete cases of its theorems.
use suprminer_fpga.Prelude.{
  ℕ, ◌≡◌, inl, refl, List, [], ◌∷◌, ◌++◌, some, none, length, replicate, arith,
}
use suprminer_fpga.Protocol.{
  crc_bit, crc_bits, crc_bytes, crc32c, encode_work_fragment, encode_ack, encode_pause,
  status_accepted, decode_status,
}
use suprminer_fpga.Protocol.Frames.{sealed, work_header, work_pair_lem}
use suprminer_fpga.Protocol.Decoding.{status_frame, IsFrame, decode_status-status_frame}
use suprminer_fpga.Protocol.Samples.{busy, with_result}

-- The check value of CRC-32C.
check_value :
    crc32c (b'1' ∷ b'2' ∷ b'3' ∷ b'4' ∷ b'5' ∷ b'6' ∷ b'7' ∷ b'8' ∷ b'9' ∷ []) ≡ 0xe306_9283
unfolding crc32c crc_bytes crc_bits crc_bit
check_value = refl

no_head : encode_ack (busy 100) ≡ none
unfolding encode_ack
no_head = refl

no_build : encode_pause 0 ≡ none
unfolding encode_pause
no_build = refl

short_frame : decode_status (replicate 63 0) ≡ none
unfolding decode_status status_accepted
short_frame = refl

work_pair_lem_example :
    (first : List ℕ) × (second : List ℕ) × (encode_work_fragment 5 1 0 (replicate 80 0xab)
      ≡ some (sealed (work_header 5 1 0 ++ first)))
    × (encode_work_fragment 5 1 1 (replicate 80 0xab) ≡ some (sealed (work_header 5 1 1 ++ second)))
    × (length first ≡ 40)
    × (length second ≡ 40)
    × (first ++ second ≡ replicate 80 0xab)
work_pair_lem_example = work_pair_lem 5 1 (replicate 80 0xab) refl

with_result-IsFrame : IsFrame with_result
with_result-IsFrame = record {
  progress_generation = omega arith;
  progress_nonce = omega arith;
  progress_hash7 = omega arith;
  completed_hashes = omega arith;
  build_id = omega arith;
  head_session = omega arith;
  head_epoch = omega arith;
  head_sequence = omega arith;
  head_nonce = omega arith;
  head_hash7 = omega arith;
  active_session = omega arith;
  active_epoch = omega arith;
  abi = refl;
  version = refl;
  known_type = inl refl;
  head = refl;
}

decode_status-status_frame_example : decode_status (status_frame with_result) ≡ some with_result
decode_status-status_frame_example = decode_status-status_frame with_result with_result-IsFrame

decoded_result : decode_status (status_frame with_result) ≡ some with_result
decoded_result = decode_status-status_frame with_result with_result-IsFrame
