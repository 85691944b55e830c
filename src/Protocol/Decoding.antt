-- ===== src/Protocol/Decoding.antt =====
-- Status frames: the device's layout, and that decoding inverts it.
use suprminer_fpga.Prelude.{
  ℕ, ◌^◌, ◌<◌, ◌≡◌, ap, ◌∙◌, List, [], ◌∷◌, ◌++◌, length, take, arith, some, Bool, true, false,
  ◌||◌, ◌==◌, ==_iff, and_true, and_parts, ◌⊎◌, ◌↔◌,
}
use suprminer_fpga.Protocol.Words.{join_le32-put, crc32c-lt}
use suprminer_fpga.Protocol.{
  put_le32, get_le32, crc32c, abi_id, protocol_version, type_result, type_status, Status, has_flag,
  bool_eq, decode_status, is_status_tag, status_accepted, read_status,
}
use suprminer_fpga.Protocol.Flag

-- The sixty bytes before the CRC.
abbrev pub status_body : Status → List ℕ
status_body s =
    put_le32 s.progress_generation
    ++ put_le32 s.progress_nonce
    ++ put_le32 s.progress_hash7
    ++ put_le32 s.completed_hashes
    ++ (b'B' ∷ b'3' ∷ b'R' ∷ b'S' ∷ [])
    ++ put_le32 s.abi
    ++ put_le32 s.build_id
    ++ (s.version ∷ s.frame_type ∷ s.occupancy ∷ s.flags ∷ [])
    ++ put_le32 s.head_session
    ++ put_le32 s.head_epoch
    ++ put_le32 s.head_sequence
    ++ put_le32 s.head_nonce
    ++ put_le32 s.head_hash7
    ++ put_le32 s.active_session
    ++ put_le32 s.active_epoch

abbrev pub status_frame : Status → List ℕ
status_frame s = status_body s ++ put_le32 (crc32c (status_body s))

abbrev pub IsU32 : ℕ → Type 0
IsU32 v = v < 2 ^ 32

-- What the device may send: words in range, this protocol, and a result exactly when a head is valid.
pub record IsFrame (s : Status) : Type 0 where
  pub progress_generation : IsU32 s.progress_generation
  pub progress_nonce : IsU32 s.progress_nonce
  pub progress_hash7 : IsU32 s.progress_hash7
  pub completed_hashes : IsU32 s.completed_hashes
  pub build_id : IsU32 s.build_id
  pub head_session : IsU32 s.head_session
  pub head_epoch : IsU32 s.head_epoch
  pub head_sequence : IsU32 s.head_sequence
  pub head_nonce : IsU32 s.head_nonce
  pub head_hash7 : IsU32 s.head_hash7
  pub active_session : IsU32 s.active_session
  pub active_epoch : IsU32 s.active_epoch
  pub abi : s.abi ≡ abi_id
  pub version : s.version ≡ protocol_version
  pub known_type : (s.frame_type ≡ type_result) ⊎ (s.frame_type ≡ type_status)
  pub head : has_flag s.flags Flag.head_valid ≡ (s.frame_type == type_result)

read_status-status_frame : (s : Status) → IsFrame s → read_status (status_frame s) ≡ s
unfolding read_status
read_status-status_frame s h = simp (
  join_le32-put s.progress_generation h.progress_generation,
  join_le32-put s.progress_nonce h.progress_nonce,
  join_le32-put s.progress_hash7 h.progress_hash7,
  join_le32-put s.completed_hashes h.completed_hashes,
  join_le32-put s.abi (omega (arith, h.abi)),
  join_le32-put s.build_id h.build_id,
  join_le32-put s.head_session h.head_session,
  join_le32-put s.head_epoch h.head_epoch,
  join_le32-put s.head_sequence h.head_sequence,
  join_le32-put s.head_nonce h.head_nonce,
  join_le32-put s.head_hash7 h.head_hash7,
  join_le32-put s.active_session h.active_session,
  join_le32-put s.active_epoch h.active_epoch,
)

known_type_test :
    (t : ℕ)
    → ((t == type_result || t == type_status) ≡ true) ↔ ((t ≡ type_result) ⊎ (t ≡ type_status))
known_type_test t = (λ e. ground arith, λ o. ground arith)

bool_eq_iff : (a b : Bool) → (bool_eq a b ≡ true) ↔ (a ≡ b)
bool_eq_iff true b = (λ e. ground arith, λ e. ground arith)
bool_eq_iff false b = (λ e. ground arith, λ e. ground arith)

status_frame-accepted : (s : Status) → IsFrame s → status_accepted (status_frame s) ≡ true
unfolding status_accepted
status_frame-accepted s h =
    let crc = join_le32-put (crc32c (status_body s)) (crc32c-lt (status_body s)) in
    let abi : (get_le32 (status_frame s) 20 == abi_id) ≡ true =
      (==_iff _ _).1 (join_le32-put s.abi (omega (arith, h.abi)) ∙ h.abi) in
    let version : (s.version == protocol_version) ≡ true = (==_iff _ _).1 h.version in
    let kind = (known_type_test s.frame_type).1 h.known_type in
    let sum : (get_le32 (status_frame s) 60 == crc32c (status_body s)) ≡ true =
      (==_iff _ _).1 crc in
    let head = (bool_eq_iff _ (s.frame_type == type_result)).1 h.head in
    and_true (and_true (and_true (and_true abi version) kind) sum) head

-- Every status that the device may send is decoded from its frame, field by field.
pub decode_status-status_frame : (s : Status) → IsFrame s → decode_status (status_frame s) ≡ some s
unfolding decode_status
decode_status-status_frame s h =
    rw (status_frame-accepted s h) (ap some (read_status-status_frame s h))

-- A frame is decoded only with the right length, tag, ABI, version, type, CRC and head flag.
pub decode_status_accepts :
    (frame : List ℕ) {s : Status}
    → decode_status frame ≡ some s
    → (length frame ≡ 64)
      × (is_status_tag frame 16 ≡ true)
      × (get_le32 frame 60 ≡ crc32c (take 60 frame))
      × (s.abi ≡ abi_id)
      × (s.version ≡ protocol_version)
      × ((s.frame_type ≡ type_result) ⊎ (s.frame_type ≡ type_status))
      × (has_flag s.flags Flag.head_valid ≡ (s.frame_type == type_result))
unfolding decode_status
decode_status_accepts frame {s} h =
    let accepted : status_accepted frame ≡ true = ground arith in
    let same : read_status frame ≡ s = ground arith in
    let (r0, head) = and_parts _ _ accepted in
    let (r1, crc) = and_parts _ _ r0 in
    let (r2, kind) = and_parts _ _ r1 in
    let (r3, version) = and_parts _ _ r2 in
    let (r4, abi) = and_parts _ _ r3 in
    let (len, tag) = and_parts _ _ r4 in
    rw (← same) (
      (==_iff _ _).0 len,
      tag,
      (==_iff _ _).0 crc,
      (==_iff _ _).0 abi,
      (==_iff _ _).0 version,
      (known_type_test _).0 kind,
      (bool_eq_iff _ _).0 head,
    )
