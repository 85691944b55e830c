-- ===== src/Protocol.antt =====
-- bc3_ztex_protocol.h: the frames between host and FPGA. A byte buffer is the list of its bytes; the
-- buffers have the sizes that their C array types state, and pointers are non-null.
pub mod Flag
pub mod Words
pub mod Frames
pub mod Decoding
pub mod Samples
mod Runs
use suprminer_fpga.Prelude.{
  ℕ, zero, suc, ◌+◌, ◌-◌, ◌*◌, ◌/◌, ◌%◌, ◌^◌, Bool, true, false, not, ◌&&◌, ◌||◌, ltb, ◌==◌,
  if◌then◌else◌, List, [], ◌∷◌, Option, none, some, length, get_or, take, drop, replicate, bit_and,
  bit_or, bit_xor,
}

abbrev pub abi_id : ℕ
abi_id = 0x42334332

abbrev pub protocol_version : ℕ
protocol_version = 2

abbrev pub fifo_depth : ℕ
fifo_depth = 8

abbrev pub type_work : ℕ
type_work = 1

abbrev pub type_ack : ℕ
type_ack = 2

abbrev pub type_result : ℕ
type_result = 3

abbrev pub type_status : ℕ
type_status = 4

abbrev pub type_pause : ℕ
type_pause = 5

pub record Status : Type 0 where
  pub progress_generation : ℕ
  pub progress_nonce : ℕ
  pub progress_hash7 : ℕ
  pub completed_hashes : ℕ
  pub abi : ℕ
  pub build_id : ℕ
  pub version : ℕ
  pub frame_type : ℕ
  pub occupancy : ℕ
  pub flags : ℕ
  pub head_session : ℕ
  pub head_epoch : ℕ
  pub head_sequence : ℕ
  pub head_nonce : ℕ
  pub head_hash7 : ℕ
  pub active_session : ℕ
  pub active_epoch : ℕ

-- `(flags & mask) != 0`.
abbrev pub has_flag : ℕ → ℕ → Bool
has_flag flags mask = not (bit_and flags mask == 0)

unfoldable pub join_le32 : ℕ → ℕ → ℕ → ℕ → ℕ
join_le32 b0 b1 b2 b3 = bit_or (bit_or (bit_or b0 (b1 * 2 ^ 8)) (b2 * 2 ^ 16)) (b3 * 2 ^ 24)

-- `bc3_ztex_get_le32(frame + offset)`.
abbrev pub get_le32 : List ℕ → ℕ → ℕ
get_le32 frame offset =
    join_le32 (get_or frame offset 0) (get_or frame (offset + 1) 0) (get_or frame (offset + 2) 0)
      (get_or frame (offset + 3) 0)

-- The four bytes that `put_le32` stores.
abbrev pub put_le32 : ℕ → List ℕ
put_le32 v = v % 256 ∷ v / 2 ^ 8 % 256 ∷ v / 2 ^ 16 % 256 ∷ v / 2 ^ 24 % 256 ∷ []

-- `(crc >> 1) ^ ((0 - (crc & 1)) & 0x82f63b78)`.
unfoldable pub crc_bit : ℕ → ℕ
crc_bit crc = bit_xor (crc / 2) (bit_and ((2 ^ 32 - bit_and crc 1) % 2 ^ 32) 0x82f63b78)

unfoldable pub crc_bits : ℕ → ℕ → ℕ
crc_bits zero crc = crc
crc_bits (suc r) crc = crc_bits r (crc_bit crc)

unfoldable pub crc_bytes : List ℕ → ℕ → ℕ
crc_bytes [] crc = crc
crc_bytes (b ∷ bs) crc = crc_bytes bs (crc_bits 8 (bit_xor crc b))

-- `~crc` on a `uint32_t`.
unfoldable pub crc32c : List ℕ → ℕ
crc32c bytes = bit_xor (crc_bytes bytes 0xffff_ffff) 0xffff_ffff % 2 ^ 32

-- `memcpy` to the front of a buffer, and to an offset in it.
unfoldable pub overlay : List ℕ → List ℕ → List ℕ
overlay [] xs = xs
overlay (b ∷ bs) [] = []
overlay (b ∷ bs) (x ∷ xs) = b ∷ overlay bs xs

unfoldable pub write_at : ℕ → List ℕ → List ℕ → List ℕ
unfolding overlay
write_at zero bs xs = overlay bs xs
write_at (suc o) bs [] = []
write_at (suc o) bs (x ∷ xs) = x ∷ write_at o bs xs

-- The last step of every encoder: the CRC of the first `n` bytes, stored after them.
unfoldable pub seal : ℕ → List ℕ → List ℕ
unfolding write_at
seal n frame = write_at n (put_le32 (crc32c (take n frame))) frame

unfoldable pub encode_work_fragment : ℕ → ℕ → ℕ → List ℕ → Option (List ℕ)
unfolding seal
encode_work_fragment session epoch fragment work =
    if ltb 1 fragment
    then none
    else let f0 = write_at 0 (b'B' ∷ b'3' ∷ b'W' ∷ b'F' ∷ []) (replicate 64 0) in
      let f1 = write_at 4 (put_le32 abi_id) f0 in
      let f2 = write_at 8 (put_le32 session) f1 in
      let f3 = write_at 12 (put_le32 epoch) f2 in
      let f4 = write_at 16 (protocol_version ∷ type_work ∷ fragment % 256 ∷ 40 ∷ []) f3 in
      let f5 = write_at 20 (take 40 (drop (40 * fragment) work)) f4 in some (seal 60 f5)

unfoldable pub encode_ack : Status → Option (List ℕ)
unfolding seal
encode_ack s =
    if not (has_flag s.flags Flag.head_valid)
    then none
    else let f0 = write_at 0 (b'B' ∷ b'3' ∷ b'A' ∷ b'K' ∷ []) (replicate 36 0) in
      let f1 = write_at 4 (put_le32 abi_id) f0 in
      let f2 = write_at 8 (put_le32 s.head_session) f1 in
      let f3 = write_at 12 (put_le32 s.head_epoch) f2 in
      let f4 = write_at 16 (put_le32 s.head_sequence) f3 in
      let f5 = write_at 20 (put_le32 s.head_nonce) f4 in
      let f6 = write_at 24 (put_le32 s.head_hash7) f5 in
      let f7 = write_at 28 (protocol_version ∷ type_ack ∷ []) f6 in some (seal 32 f7)

unfoldable pub encode_pause : ℕ → Option (List ℕ)
unfolding seal
encode_pause build_id =
    if build_id == 0
    then none
    else let f0 = write_at 0 (b'B' ∷ b'3' ∷ b'P' ∷ b'S' ∷ []) (replicate 32 0) in
      let f1 = write_at 4 (put_le32 abi_id) f0 in
      let f2 = write_at 8 (put_le32 build_id) f1 in
      let f3 = write_at 24 (protocol_version ∷ type_pause ∷ []) f2 in some (seal 28 f3)

-- `memcmp(frame + offset, "B3RS", 4) == 0`.
abbrev pub is_status_tag : List ℕ → ℕ → Bool
is_status_tag frame offset =
    get_or frame offset 0 == b'B'
    && get_or frame (offset + 1) 0 == b'3'
    && get_or frame (offset + 2) 0 == b'R'
    && get_or frame (offset + 3) 0 == b'S'

abbrev pub bool_eq : Bool → Bool → Bool
bool_eq true b = b
bool_eq false b = not b

-- The tests of `decode_status`, in order.
unfoldable pub status_accepted : List ℕ → Bool
status_accepted frame =
    let frame_type = get_or frame 29 0 in
    length frame == 64
    && is_status_tag frame 16
    && get_le32 frame 20 == abi_id
    && get_or frame 28 0 == protocol_version
    && (frame_type == type_result || frame_type == type_status)
    && get_le32 frame 60 == crc32c (take 60 frame)
    && bool_eq (has_flag (get_or frame 31 0) Flag.head_valid) (frame_type == type_result)

-- The fields as they are read.
unfoldable pub read_status : List ℕ → Status
read_status frame = record {
  progress_generation = get_le32 frame 0;
  progress_nonce = get_le32 frame 4;
  progress_hash7 = get_le32 frame 8;
  completed_hashes = get_le32 frame 12;
  abi = get_le32 frame 20;
  build_id = get_le32 frame 24;
  version = get_or frame 28 0;
  frame_type = get_or frame 29 0;
  occupancy = get_or frame 30 0;
  flags = get_or frame 31 0;
  head_session = get_le32 frame 32;
  head_epoch = get_le32 frame 36;
  head_sequence = get_le32 frame 40;
  head_nonce = get_le32 frame 44;
  head_hash7 = get_le32 frame 48;
  active_session = get_le32 frame 52;
  active_epoch = get_le32 frame 56;
}

unfoldable pub decode_status : List ℕ → Option Status
unfolding status_accepted read_status
decode_status frame = if status_accepted frame then some (read_status frame) else none
