-- ===== src/VariantFamily.antt =====
-- sha3_variant_family.h: which families of clock images are accepted. A C string is the list of its
-- bytes before the NUL, and pointers are non-null.
pub mod Accepted
mod Runs
use suprminer_fpga.Prelude.{
  ℕ, zero, suc, ◌+◌, ◌-◌, ◌*◌, ◌/◌, ◌%◌, ◌^◌, Bool, true, false, not, ◌&&◌, ◌||◌, ltb, leb, ◌==◌,
  if◌then◌else◌, List, [], ◌∷◌, Option, none, some, length, drop, ℤ, pos, negsuc, uint64_max,
}

abbrev pub digest_hex_chars : ℕ
digest_hex_chars = 64

abbrev pub family_max_rungs : ℕ
family_max_rungs = 32

pub record Spec : Type 0 where
  pub state_id : List ℕ
  pub bitfile : List ℕ
  pub sha256_hex : List ℕ
  pub engines : ℕ
  pub clock_hz_numerator : ℕ
  pub clock_hz_denominator : ℕ
  pub expected_rate_hps_floor : ℕ

abbrev pub token_char : ℕ → Bool
token_char c =
    (leb b'a' c && leb c b'z')
    || (leb b'A' c && leb c b'Z')
    || (leb b'0' c && leb c b'9')
    || c == b'-'
    || c == b'_'
    || c == b'.'

unfoldable pub token_chars : List ℕ → Bool
token_chars [] = true
token_chars (c ∷ cs) = token_char c && token_chars cs

unfoldable pub safe_token : List ℕ → ℕ → Bool
safe_token text maximum = not (length text == 0 || ltb maximum (length text)) && token_chars text

unfoldable pub digest_chars : List ℕ → Bool
digest_chars [] = true
digest_chars (c ∷ cs) =
    ((leb b'0' c && leb c b'9') || (leb b'a' c && leb c b'f')) && digest_chars cs

unfoldable pub digest_valid : List ℕ → Bool
digest_valid digest = length digest == digest_hex_chars && digest_chars digest

-- `none` for `false`; else the rate that is written.
unfoldable pub rate_floor : Spec → Option ℕ
rate_floor s =
    if s.engines == 0
      || s.clock_hz_numerator == 0
      || s.clock_hz_denominator == 0
      || ltb (uint64_max / s.engines) s.clock_hz_numerator
      || ltb (uint64_max / 72) s.clock_hz_denominator
    then none
    else some (s.clock_hz_numerator * s.engines % 2 ^ 64 / (s.clock_hz_denominator * 72 % 2 ^ 64))

abbrev pub text_equal : List ℕ → List ℕ → Bool
text_equal [] [] = true
text_equal (x ∷ xs) (y ∷ ys) = x == y && text_equal xs ys
text_equal [] (y ∷ ys) = false
text_equal (x ∷ xs) [] = false

-- `strstr(text, "..") != NULL`.
unfoldable pub has_dots : List ℕ → Bool
has_dots [] = false
has_dots (a ∷ []) = false
has_dots (a ∷ b ∷ text) = (a == b'.' && b == b'.') || has_dots (b ∷ text)

abbrev pub bit_suffix : List ℕ
bit_suffix = b'.' ∷ b'b' ∷ b'i' ∷ b't' ∷ []

abbrev pub is_rate : Option ℕ → ℕ → Bool
is_rate none expected = false
is_rate (some rate) expected = rate == expected

unfoldable pub spec_valid : Spec → Bool
spec_valid s =
    safe_token s.state_id 63
    && safe_token s.bitfile 255
    && digest_valid s.sha256_hex
    && leb s.engines 64
    && is_rate (rate_floor s) s.expected_rate_hps_floor
    && ltb 4 (length s.bitfile)
    && text_equal (drop (length s.bitfile - 4) s.bitfile) bit_suffix
    && not (has_dots s.bitfile)

-- The inner loop: whether an earlier image has the same state id or file.
unfoldable pub repeats_earlier : Spec → List Spec → Bool
repeats_earlier s [] = false
repeats_earlier s (e ∷ earlier) =
    text_equal s.state_id e.state_id || text_equal s.bitfile e.bitfile || repeats_earlier s earlier

abbrev pub falls_behind : Spec → List Spec → Bool
falls_behind s [] = false
falls_behind s (e ∷ earlier) = leb s.expected_rate_hps_floor e.expected_rate_hps_floor

-- The outer loop: the images that are left, and those before them, the last one first.
unfoldable pub specs_valid : List Spec → List Spec → Bool
specs_valid earlier [] = true
specs_valid earlier (s ∷ specs) =
    spec_valid s
    && not (falls_behind s earlier)
    && not (repeats_earlier s earlier)
    && specs_valid (s ∷ earlier) specs

abbrev pub rung_valid : ℤ → ℕ → Bool
rung_valid (pos r) count = ltb r count
rung_valid (negsuc r) count = false

unfoldable pub family_valid : List ℕ → List Spec → ℤ → Bool
family_valid family_id specs default_rung =
    safe_token family_id 63
    && leb 2 (length specs)
    && leb (length specs) family_max_rungs
    && rung_valid default_rung (length specs)
    && specs_valid [] specs
