-- ===== src/Encoding/Runs.antt =====
-- Runs of the encodings, and concrete cases of their theorems.
use suprminer_fpga.Prelude.{
  ℕ, ◌≡◌, refl, true, false, List, [], ◌∷◌, ◌++◌, map, none, some, length, leb, replicate, All,
  arith,
}
use suprminer_fpga.JobGuard.{hex_exact, hex_nibble, hex_exact_loop}
use suprminer_fpga.Encoding.{
  bin2hex, hex2bin, varint_encode, b58dec, fulltest, zero_words, b58_keep, masked, b58_round,
  b58_loop, digit_value, b58_multiply, b58_rest, b58_first, b58_search, strtol_digits,
  fulltest_loop, b58_store,
}
use suprminer_fpga.Encoding.Hex.{IsByte, lower, hex_exact-hex2bin}
use suprminer_fpga.Encoding.Varint.{varint_decode, varint_size, varint_decode-varint_encode}
use suprminer_fpga.Encoding.Target.{words_value, fulltest-leb}

abbrev bytes : List ℕ
bytes = 0xde ∷ 0x0a ∷ []

-- "De0A", "21", "0" and "+5".
abbrev mixed : List ℕ
mixed = b'D' ∷ b'e' ∷ b'0' ∷ b'A' ∷ []

abbrev digits : List ℕ
digits = b'2' ∷ b'1' ∷ []

abbrev no_digit : List ℕ
no_digit = b'0' ∷ []

abbrev signed : List ℕ
signed = b'+' ∷ b'5' ∷ []

mixed_read : hex2bin mixed 2 ≡ (true, bytes)
unfolding hex2bin strtol_digits digit_value
mixed_read = refl

-- A sign in place of a digit is read too.
signed_read : hex2bin signed 1 ≡ (true, 5 ∷ [])
unfolding hex2bin strtol_digits digit_value
signed_read = refl

odd_refused : hex2bin (b'a' ∷ []) 1 ≡ (false, [])
unfolding hex2bin
odd_refused = refl

digits_decoded : b58dec 2 digits ≡ some (0 ∷ 58 ∷ [])
unfolding b58dec b58_loop b58_round b58_search b58_keep b58_multiply zero_words masked b58_store
    b58_first b58_rest
digits_decoded = refl

digit_refused : b58dec 2 no_digit ≡ none
unfolding b58dec b58_loop b58_round b58_search
digit_refused = refl

-- A buffer of four bytes takes no number but zero.
four_refused : b58dec 4 digits ≡ none
unfolding b58dec b58_loop b58_round b58_search b58_keep b58_multiply zero_words masked
four_refused = refl

abbrev hash : List ℕ
hash = replicate 7 5 ++ (1 ∷ [])

abbrev target : List ℕ
target = replicate 7 0 ++ (2 ∷ [])

hash_accepted : fulltest hash target ≡ true
unfolding fulltest fulltest_loop
hash_accepted = refl

mixed_exact : hex_exact (some mixed) 2 ≡ true
unfolding hex_exact hex_exact_loop hex_nibble
mixed_exact = refl

hex_exact-hex2bin_example :
    let r = hex2bin mixed 2 in
    (r.0 ≡ true) × (length r.1 ≡ 2) × All IsByte r.1 × (bin2hex r.1 ≡ map lower mixed)
hex_exact-hex2bin_example = hex_exact-hex2bin mixed 2 (omega arith) mixed_exact

varint_decode-varint_encode_example :
    (varint_decode (varint_encode 515 ++ bytes) ≡ some (515, bytes))
    × (length (varint_encode 515) ≡ varint_size 515)
varint_decode-varint_encode_example = varint_decode-varint_encode 515 bytes (omega arith)

fulltest-leb_example : fulltest hash target ≡ leb (words_value 8 hash) (words_value 8 target)
fulltest-leb_example = fulltest-leb hash target refl refl (omega arith) (omega arith)
