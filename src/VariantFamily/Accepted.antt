-- ===== src/VariantFamily/Accepted.antt =====
-- What an accepted family guarantees.
use suprminer_fpga.Prelude.{
  ℕ, ◌*◌, ◌/◌, ◌%◌, ◌^◌, ◌<◌, ◌≤◌, ◌≡◌, ◌≢◌, refl, ap, sym, ◌∙◌, Bool, true, false, not, ◌&&◌, leb,
  ◌==◌, if◌then◌else◌, List, [], ◌∷◌, none, some, length, ℤ, All, All-map, uint64_max, and_parts,
  or_parts, and_true, ==_iff, arith,
}
use native.Mathlib.Nat.{mul-le-mul_right, div-add-mod', mod-eq_of_lt}
use suprminer_fpga.VariantFamily.{
  Spec, rate_floor, is_rate, text_equal, spec_valid, repeats_earlier, falls_behind, specs_valid,
  rung_valid, family_valid, safe_token,
}

negated : (b : Bool) → not b ≡ true → b ≡ false
negated true h = absurd (ground arith)
negated false h = refl

text_equal_self : (xs : List ℕ) → text_equal xs xs ≡ true
text_equal_self [] = refl
text_equal_self (x ∷ xs) = and_true ((==_iff x x).1 refl) (text_equal_self xs)

-- A later image, and one before it: it is faster, and another state and file.
pub record Above (later earlier : Spec) : Type 0 where
  pub faster : earlier.expected_rate_hps_floor < later.expected_rate_hps_floor
  pub other_state : later.state_id ≢ earlier.state_id
  pub other_file : later.bitfile ≢ earlier.bitfile

-- Each image is above all images behind it in the list.
abbrev pub Descends : List Spec → Type 0
Descends [] = Unit {0}
Descends (s ∷ earlier) = All (Above s) earlier × Descends earlier

differ : (xs ys : List ℕ) → text_equal xs ys ≡ false → xs ≢ ys
differ xs ys h e = absurd (ground (arith, sym h ∙ ap (text_equal xs) (sym e) ∙ text_equal_self xs))

-- The test of the last image before it is a test of all of them.
All-Above :
    (s : Spec) (earlier : List Spec)
    → All (λ e. e.expected_rate_hps_floor < s.expected_rate_hps_floor) earlier
    → repeats_earlier s earlier ≡ false
    → All (Above s) earlier
unfolding repeats_earlier
All-Above s [] slow h = tt
All-Above s (e ∷ earlier) (lt, slow) h =
    let (h1, rest) = or_parts _ _ h in
    let (state, file) = or_parts _ _ h1 in
    (
      record { faster = lt; other_state = differ _ _ state; other_file = differ _ _ file },
      All-Above s earlier slow rest,
    )

slower-All :
    (s : Spec) (earlier : List Spec)
    → falls_behind s earlier ≡ false
    → Descends earlier
    → All (λ e. e.expected_rate_hps_floor < s.expected_rate_hps_floor) earlier
slower-All s [] h d = tt
slower-All s (e ∷ earlier) h (above, d) =
    let lt : e.expected_rate_hps_floor < s.expected_rate_hps_floor = ground arith in
    (
      lt,
      All-map (Above e) (λ x. x.expected_rate_hps_floor < s.expected_rate_hps_floor) earlier
          (λ x a. omega (arith, lt, a.faster)) above,
    )

product_small : (n e : ℕ) → (e == 0) ≡ false → n ≤ uint64_max / e → n * e ≤ uint64_max
product_small n e h le =
    let le_e : n * e ≤ uint64_max / e * e = mul-le-mul_right e le in
    omega (arith, le_e, div-add-mod' uint64_max e)

-- The rate of an image: a 72nd of its engines' clock, rounded down.
abbrev pub rate_of : Spec → ℕ
rate_of s = s.clock_hz_numerator * s.engines / (s.clock_hz_denominator * 72)

is_rate_if :
    (bad : Bool) (v r : ℕ)
    → is_rate (if bad then none else some v) r ≡ true
    → (bad ≡ false) × (v ≡ r)
is_rate_if true v r h = absurd (ground arith)
is_rate_if false v r h = (refl, (==_iff v r).0 h)

-- No product wraps where there is a rate.
rate_floor-rate_of : (s : Spec) (r : ℕ) → is_rate (rate_floor s) r ≡ true → r ≡ rate_of s
unfolding rate_floor
rate_floor-rate_of s r h =
    let (fine, value) = is_rate_if _ _ r h in
    let (f1, den) = or_parts _ _ fine in
    let (f2, num) = or_parts _ _ f1 in
    let (f3, _) = or_parts _ _ f2 in
    let (engines, _) = or_parts _ _ f3 in
    let num_le : s.clock_hz_numerator ≤ uint64_max / s.engines = ground arith in
    let den_le : s.clock_hz_denominator ≤ uint64_max / 72 = ground arith in
    let product : s.clock_hz_numerator * s.engines ≤ uint64_max =
      product_small s.clock_hz_numerator s.engines engines num_le in
    sym value
    ∙ ap (λ x. x / (s.clock_hz_denominator * 72 % 2 ^ 64)) (mod-eq_of_lt (omega (arith, product)))
    ∙ ap (λ x. s.clock_hz_numerator * s.engines / x) (mod-eq_of_lt (omega (arith, den_le)))

spec_valid-rate_of : (s : Spec) → spec_valid s ≡ true → s.expected_rate_hps_floor ≡ rate_of s
unfolding spec_valid
spec_valid-rate_of s h =
    let (h1, _) = and_parts _ _ h in
    let (h2, _) = and_parts _ _ h1 in
    let (h3, _) = and_parts _ _ h2 in
    let (_, rate) = and_parts _ _ h3 in rate_floor-rate_of s s.expected_rate_hps_floor rate

-- The images in the order in which the loop has put them behind the earlier ones.
abbrev pub put_before : List Spec → List Spec → List Spec
put_before [] earlier = earlier
put_before (s ∷ specs) earlier = put_before specs (s ∷ earlier)

specs_valid-Descends :
    (specs earlier : List Spec)
    → Descends earlier
    → specs_valid earlier specs ≡ true
    → Descends (put_before specs earlier) × All (λ s. s.expected_rate_hps_floor ≡ rate_of s) specs
unfolding specs_valid
specs_valid-Descends [] earlier d h = (d, tt)
specs_valid-Descends (s ∷ specs) earlier d h =
    let (h1, rest) = and_parts _ _ h in
    let (h2, fresh) = and_parts _ _ h1 in
    let (valid, ahead) = and_parts _ _ h2 in
    let not_behind : falls_behind s earlier ≡ false = negated (falls_behind s earlier) ahead in
    let no_repeat : repeats_earlier s earlier ≡ false = negated (repeats_earlier s earlier) fresh in
    let above = All-Above s earlier (slower-All s earlier not_behind d) no_repeat in
    let (all, rates) = specs_valid-Descends specs (s ∷ earlier) (above, d) rest in
    (all, (spec_valid-rate_of s valid, rates))

-- In an accepted family there are 2 to 32 images, the default one is among them, each has the exact rate
-- of its engines and clock, rounded down, and each is faster than all images before it, with another
-- state id and another file.
pub family_valid-Descends :
    (family_id : List ℕ) (specs : List Spec) (default_rung : ℤ)
    → family_valid family_id specs default_rung ≡ true
    → (2 ≤ length specs)
      × (length specs ≤ 32)
      × (rung_valid default_rung (length specs) ≡ true)
      × Descends (put_before specs [])
      × All (λ s. s.expected_rate_hps_floor ≡ rate_of s) specs
unfolding family_valid
family_valid-Descends family_id specs default_rung h =
    let (h1, loop) = and_parts _ _ h in
    let (h2, rung) = and_parts _ _ h1 in
    let (h3, top) =
      and_parts (safe_token family_id 63 && leb 2 (length specs)) (leb (length specs) 32) h2 in
    let (_, low) = and_parts (safe_token family_id 63) (leb 2 (length specs)) h3 in
    let (descends, rates) = specs_valid-Descends specs [] tt loop in
    (ground arith, ground arith, rung, descends, rates)
