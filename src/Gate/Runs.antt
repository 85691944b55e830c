-- ===== src/Gate/Runs.antt =====
-- Runs of the gate, the payload and the transfers, and concrete cases of their theorems.
use suprminer_fpga.Prelude.{
  ℕ, ◌+◌, ◌<◌, ◌≤◌, ◌^◌, ◌≡◌, ◌⊎◌, refl, true, false, ◌==◌, if◌then◌else◌, List, [], ◌∷◌, ◌++◌,
  none, some, length, take, drop, replicate, pos, negsuc, All, arith,
}
use suprminer_fpga.Gate.{
  parse_build_id, pack_work, IoOps, send_work_pair, hex_value, send_selected, build_id_result,
  exact_rc, build_id_loop,
}
use suprminer_fpga.Gate.BuildId.{Writes, nonzero_number, parse_build_id_lem}
use suprminer_fpga.Gate.Payload.{read_words, pack_work_lem}
use suprminer_fpga.Gate.Transfers.{FrameSent, NotSent, send_work_pair_lem}

-- "0x00000034" and "+0000034".
abbrev prefixed : List ℕ
prefixed = b'0' ∷ b'x' ∷ replicate 6 b'0' ++ (b'3' ∷ b'4' ∷ [])

abbrev signed : List ℕ
signed = b'+' ∷ replicate 5 b'0' ++ (b'3' ∷ b'4' ∷ [])

abbrev header : List ℕ
header = 1 ∷ 2 ∷ replicate 18 3

abbrev target : List ℕ
target = replicate 7 0 ++ (305419896 ∷ [])

abbrev frames : List ℕ
frames = replicate 64 1 ++ replicate 64 2

-- A transport that counts its calls, and takes one byte less in its second transfer.
abbrev counting : IoOps ℕ
counting = record {
  select_lane = λ w lane. (w + 1, true);
  send_exact = λ w frame. (w + 1, if w == 3 then pos 63 else pos (length frame));
  read_exact = λ w n. (w + 1, replicate n 0, pos n);
}

prefixed_parsed : parse_build_id prefixed ≡ some 0x34
unfolding parse_build_id build_id_result build_id_loop hex_value
prefixed_parsed = refl

-- "ABCDEFab".
letters_parsed :
    parse_build_id (b'A' ∷ b'B' ∷ b'C' ∷ b'D' ∷ b'E' ∷ b'F' ∷ b'a' ∷ b'b' ∷ []) ≡ some 0xabcdefab
unfolding parse_build_id build_id_result build_id_loop hex_value
letters_parsed = refl

signed_refused : parse_build_id signed ≡ none
unfolding parse_build_id build_id_result build_id_loop hex_value
signed_refused = refl

second_short : send_work_pair counting 0 2 frames ≡ (4, false, 1, negsuc 98)
unfolding send_work_pair send_selected exact_rc
second_short = refl

parse_build_id_lem_example :
    ((digits : List ℕ) × Writes prefixed digits × (parse_build_id prefixed ≡ nonzero_number digits))
    ⊎ ((digits : List ℕ) → ¬ Writes prefixed digits) × (parse_build_id prefixed ≡ none)
parse_build_id_lem_example = parse_build_id_lem prefixed

header_small : All (λ w. w < 2 ^ 32) header
header_small = omega arith

target_small : All (λ w. w < 2 ^ 32) target
target_small = omega arith

pack_work_lem_example :
    ((19 < 20)
      × (7 < 8)
      × ((payload : List ℕ) × (pack_work header target ≡ some payload)
          × (length payload ≡ 80)
          × (read_words 20 payload ≡ take 19 header ++ (305419896 ∷ []))))
    ⊎ ((20 ≤ 19 ⊎ 8 ≤ 7)) × (pack_work header target ≡ none)
pack_work_lem_example = pack_work_lem header target header_small target_small

send_work_pair_lem_example :
    let r = send_work_pair counting 0 2 frames in
    let front : List ℕ = take 64 frames in
    let back : List ℕ = take 64 (drop 64 frames) in
    ((r.1 ≡ true)
      × (r.2 ≡ 2)
      × (r.3 ≡ pos 0)
      × ((half : ℕ) × FrameSent counting 0 2 front half × FrameSent counting half 2 back r.0))
    ⊎ (r.1 ≡ false) × (r.2 ≡ 0) × NotSent counting 0 2 front r.0 r.3
    ⊎ (r.1 ≡ false)
      × (r.2 ≡ 1)
      × ((half : ℕ) × FrameSent counting 0 2 front half × NotSent counting half 2 back r.0 r.3)
send_work_pair_lem_example = send_work_pair_lem counting 0 2 frames refl
