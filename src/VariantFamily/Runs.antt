-- ===== src/VariantFamily/Runs.antt =====
-- A small family of images, and a concrete case of the theorem about families.
use suprminer_fpga.Prelude.{ℕ, ◌≤◌, ◌≡◌, refl, true, false, List, [], ◌∷◌, replicate, pos, All}
use suprminer_fpga.VariantFamily.{
  Spec, bit_suffix, rung_valid, family_valid, repeats_earlier, token_chars, rate_floor, spec_valid,
  digest_valid, safe_token, has_dots, specs_valid, digest_chars,
}
use suprminer_fpga.VariantFamily.Accepted.{Descends, rate_of, put_before, family_valid-Descends}

abbrev family : List ℕ
family = b'f' ∷ []

abbrev slow : Spec
slow = record {
  state_id = b'a' ∷ [];
  bitfile = b'a' ∷ bit_suffix;
  sha256_hex = replicate 64 b'0';
  engines = 18;
  clock_hz_numerator = 1296000000;
  clock_hz_denominator = 13;
  expected_rate_hps_floor = 24923076;
}

abbrev fast : Spec
fast = record slow {
  state_id = b'b' ∷ [];
  bitfile = b'b' ∷ bit_suffix;
  clock_hz_numerator = 104000000;
  clock_hz_denominator = 1;
  expected_rate_hps_floor = 26000000;
}

both_accepted : family_valid family (slow ∷ fast ∷ []) (pos 0) ≡ true
unfolding family_valid safe_token token_chars specs_valid spec_valid digest_valid digest_chars
    rate_floor has_dots repeats_earlier
both_accepted = refl

wrong_order : family_valid family (fast ∷ slow ∷ []) (pos 0) ≡ false
unfolding family_valid safe_token token_chars specs_valid spec_valid digest_valid digest_chars
    rate_floor has_dots repeats_earlier
wrong_order = refl

family_valid-Descends_example :
    (2 ≤ 2)
    × (2 ≤ 32)
    × (rung_valid (pos 0) 2 ≡ true)
    × Descends (put_before (slow ∷ fast ∷ []) [])
    × All (λ s. s.expected_rate_hps_floor ≡ rate_of s) (slow ∷ fast ∷ [])
family_valid-Descends_example =
    family_valid-Descends family (slow ∷ fast ∷ []) (pos 0) both_accepted
