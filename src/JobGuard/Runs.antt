-- ===== src/JobGuard/Runs.antt =====
-- Runs of the guards, and concrete cases of their theorems.
use suprminer_fpga.Prelude.{
  ℕ, ◌≤◌, ◌≡◌, ◌⊎◌, refl, true, List, [], ◌∷◌, ◌++◌, some, none, replicate, arith,
}
use suprminer_fpga.JobGuard.{
  hex_nibble, string_bounded, hex_exact_loop, hex_exact, hex_bounded_loop, hex_bounded,
  coinbase_layout, decred_height, seek_tag, pass_tag, or_bytes, tagged_height, search_height,
  coinbase_height,
}
use suprminer_fpga.JobGuard.Hex.{string_bounded_lem}
use suprminer_fpga.JobGuard.Height.{candidate, coinbase_height_safe, rejected_candidate_stays}

-- "dead", and a text of odd length.
abbrev dead : List ℕ
dead = b'd' ∷ b'e' ∷ b'a' ∷ b'd' ∷ []

dead_hex : hex_exact (some dead) 2 ≡ true
unfolding hex_exact hex_exact_loop hex_nibble
dead_hex = refl

odd_hex : hex_bounded (some (b'f' ∷ dead)) 8 ≡ none
unfolding hex_bounded hex_bounded_loop hex_nibble
odd_hex = refl

missing_text : string_bounded none 10 ≡ none
unfolding string_bounded
missing_text = refl

string_bounded_lem_example : string_bounded (some dead) 3 ≡ none
string_bounded_lem_example = string_bounded_lem dead 3

abbrev bytes : ℕ
bytes = 2

layout_answer : coinbase_layout 100 8 4 60 ≡ some (108, 172)
unfolding coinbase_layout
layout_answer = refl

abbrev offset : ℕ
offset = 108

abbrev total : ℕ
total = 172

abbrev coinb1_size : ℕ
coinb1_size = 100

-- A coinbase with the tag and a height of three bytes.
abbrev tagged : List ℕ
tagged = replicate 32 0 ++ (0xff ∷ 0xff ∷ 0xff ∷ 0xff ∷ 0x20 ∷ 0x03 ∷ 0x01 ∷ 0x02 ∷ 0x03 ∷ [])

tagged_answer : coinbase_height (some tagged) ≡ some 0x030201
unfolding coinbase_height search_height seek_tag pass_tag tagged_height or_bytes
tagged_answer = refl

coinbase_height_safe_example : (h : ℕ) × (coinbase_height (some tagged) ≡ some h)
coinbase_height_safe_example = coinbase_height_safe tagged

-- The same tag in a coinbase of 150 bytes whose bytes 92 to 95 are all 0xf0.
abbrev long_coinbase : List ℕ
long_coinbase = tagged ++ replicate 51 0 ++ replicate 4 0xf0 ++ replicate 54 0

mixed_height : coinbase_height (some long_coinbase) ≡ some 0xf0f3_f2f1
unfolding coinbase_height decred_height search_height seek_tag pass_tag tagged_height or_bytes
mixed_height = refl

rejected_candidate_stays_example :
    (h : ℕ) × (coinbase_height (some long_coinbase) ≡ some h)
    × ((h ≡ 0) ⊎ (candidate long_coinbase ≤ h))
rejected_candidate_stays_example =
    rejected_candidate_stays long_coinbase (omega arith) (omega arith)
