-- ===== src/Protocol/Frames.antt =====
-- The frames that the host sends, byte by byte, against the encoders.
use suprminer_fpga.Prelude.{
  ℕ, zero, suc, ◌+◌, ◌*◌, ◌%◌, ◌≤◌, ◌≡◌, refl, sym, ap, ◌∙◌, false, length-append, if◌then◌else◌,
  List, [], ◌∷◌, ◌++◌, length, replicate, take, drop, arith, some, none, Bool-cases, ltb, inl, inr,
  ◌==◌,
}
use mathlib.Core.List.{append_assoc}
use suprminer_fpga.Protocol.Words.{write_at-append, overlay-append, seal-append}
use suprminer_fpga.Protocol.{
  put_le32, write_at, seal, crc32c, abi_id, encode_work_fragment, encode_ack, encode_pause, Status,
  has_flag,
}
use suprminer_fpga.Protocol.Flag

-- A frame is a body and the CRC of the body.
abbrev pub sealed : List ℕ → List ℕ
sealed body = body ++ put_le32 (crc32c body)

-- The twenty bytes before a fragment's payload.
abbrev pub work_header : ℕ → ℕ → ℕ → List ℕ
work_header session epoch fragment =
    b'B' ∷ b'3' ∷ b'W' ∷ b'F' ∷ put_le32 abi_id
    ++ put_le32 session
    ++ put_le32 epoch
    ++ (2 ∷ 1 ∷ fragment % 256 ∷ 40 ∷ [])

abbrev pub payload : ℕ → List ℕ → List ℕ
payload fragment work = take 40 (drop (40 * fragment) work)

-- Writing a payload behind a header, into a buffer with four bytes to spare, and sealing it.
seal-payload :
    (n : ℕ) (header bytes old : List ℕ)
    → length bytes ≡ length old
    → length (header ++ bytes) ≡ n
    → seal n (write_at (length header) bytes (header ++ (old ++ (0 ∷ 0 ∷ 0 ∷ 0 ∷ []))))
      ≡ sealed (header ++ bytes)
seal-payload n header bytes old h len =
    ap (seal n) (
      write_at-append (length header) bytes header _ refl
      ∙ ap (◌++◌ header) (overlay-append bytes old (0 ∷ 0 ∷ 0 ∷ 0 ∷ []) h)
      ∙ sym (append_assoc header bytes (0 ∷ 0 ∷ 0 ∷ 0 ∷ [])))
    ∙ seal-append n (header ++ bytes) 0 0 0 0 len

-- For each of the two fragments the encoder writes the header, the 40 bytes of that half of the work
-- and their CRC, 64 bytes in all.
pub encode_work_fragment_lem :
    (session epoch fragment : ℕ) (work : List ℕ)
    → fragment ≤ 1
    → length (payload fragment work) ≡ 40
    → encode_work_fragment session epoch fragment work
      ≡ some (sealed (work_header session epoch fragment ++ payload fragment work))
unfolding encode_work_fragment write_at
encode_work_fragment_lem session epoch fragment work h len =
    let header : List ℕ = work_header session epoch fragment in
    let fine : ltb 1 fragment ≡ false = ground arith in
    rw fine (
      ap some (
        seal-payload 60 header (payload fragment work) (replicate 40 0) len
          (omega (arith, len, length-append header (payload fragment work)))))

-- The acknowledgement names every field of the FIFO head of the status that it answers; without a
-- valid head none is made.
pub encode_ack_lem :
    (s : Status)
    → encode_ack s ≡ (
        if has_flag s.flags Flag.head_valid
        then some (
            sealed (
              b'B' ∷ b'3' ∷ b'A' ∷ b'K' ∷ put_le32 abi_id
              ++ put_le32 s.head_session
              ++ put_le32 s.head_epoch
              ++ put_le32 s.head_sequence
              ++ put_le32 s.head_nonce
              ++ put_le32 s.head_hash7
              ++ (2 ∷ 2 ∷ 0 ∷ 0 ∷ [])))
        else none)
unfolding encode_ack write_at
encode_ack_lem s = elim (Bool-cases (has_flag s.flags Flag.head_valid)) [
  | inl e ↦ rw e refl
  | inr e ↦ rw e refl
]

-- The pause command names the build and nothing else; build zero is refused.
pub encode_pause_lem :
    (build_id : ℕ)
    → encode_pause build_id ≡ (
        if build_id == 0
        then none
        else some (
            sealed (
              b'B' ∷ b'3' ∷ b'P' ∷ b'S' ∷ put_le32 abi_id
              ++ put_le32 build_id
              ++ replicate 12 0
              ++ (2 ∷ 5 ∷ 0 ∷ 0 ∷ []))))
unfolding encode_pause write_at
encode_pause_lem build_id = elim (Bool-cases (build_id == 0)) [
  | inl e ↦ rw e refl
  | inr e ↦ rw e refl
]

take-drop_halves :
    (n m : ℕ) (xs : List ℕ) → length xs ≡ n + m → take n xs ++ take m (drop n xs) ≡ xs
take-drop_halves zero zero [] h = refl
take-drop_halves zero zero (x ∷ xs) h = absurd (omega arith)
take-drop_halves zero (suc m) [] h = absurd (omega arith)
take-drop_halves zero (suc m) (x ∷ xs) h = ap (◌∷◌ x) (take-drop_halves zero m xs (omega arith))
take-drop_halves (suc n) m [] h = absurd (omega arith)
take-drop_halves (suc n) m (x ∷ xs) h = ap (◌∷◌ x) (take-drop_halves n m xs (omega arith))

length-take-drop : (m n : ℕ) (xs : List ℕ) → n + m ≤ length xs → length (take m (drop n xs)) ≡ m
length-take-drop zero zero xs h = refl
length-take-drop (suc m) zero [] h = absurd (omega arith)
length-take-drop (suc m) zero (x ∷ xs) h = omega (arith, length-take-drop m zero xs (omega arith))
length-take-drop m (suc n) [] h = absurd (omega arith)
length-take-drop m (suc n) (x ∷ xs) h = length-take-drop m n xs (omega arith)

-- For a work of 80 bytes, its two frames carry its session and epoch, the fragment number, and
-- between them exactly the bytes of the work in order, each frame with its CRC.
pub work_pair_lem :
    (session epoch : ℕ) (work : List ℕ)
    → length work ≡ 80
    → (first : List ℕ) × (second : List ℕ) × (encode_work_fragment session epoch 0 work
        ≡ some (sealed (work_header session epoch 0 ++ first)))
      × (encode_work_fragment session epoch 1 work
          ≡ some (sealed (work_header session epoch 1 ++ second)))
      × (length first ≡ 40)
      × (length second ≡ 40)
      × (first ++ second ≡ work)
work_pair_lem session epoch work h =
    let l0 = length-take-drop 40 0 work (omega arith) in
    let l1 = length-take-drop 40 40 work (omega arith) in
    (
      payload 0 work,
      payload 1 work,
      encode_work_fragment_lem session epoch 0 work (omega arith) l0,
      encode_work_fragment_lem session epoch 1 work (omega arith) l1,
      l0,
      l1,
      take-drop_halves 40 40 work h,
    )
