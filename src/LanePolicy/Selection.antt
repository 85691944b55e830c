-- ===== src/LanePolicy/Selection.antt =====
-- The selected lanes: the mask and the count that goes with it.
use suprminer_fpga.Prelude.{
  ℕ, ◌+◌, ◌-◌, ◌%◌, ◌^◌, ◌≤◌, ◌<◌, ◌≡◌, inl, inr, refl, Bool, false, not, ◌&&◌, ◌||◌, ltb, ◌==◌,
  Option, none, some, arith, List, [], ◌∷◌, length, Bool-cases, sym, subst,
}
use suprminer_fpga.LanePolicy.{
  max_lanes, add_lane, lane_digit, has_comma, only_loop, only_result, parse_only,
}
use suprminer_fpga.LanePolicy.Masks.{
  lanes_in, add_lane_lem, add_lane_bound, lane_digit-lt, lanes_in_all,
}
use native.Mathlib.Nat.{pow-le-pow_right}

-- A mask of the board's lanes, and how many lanes are in it.
pub record IsSelection (lanes mask count : ℕ) : Type 0 where
  pub inside : mask < 2 ^ lanes
  pub counted : count ≡ lanes_in mask
  pub nonempty : 0 < count
  pub fits : count ≤ lanes

two_pos : 0 < 2
two_pos = omega arith

power_bound : (lanes mask : ℕ) → lanes ≤ 8 → mask < 2 ^ lanes → mask < 256
power_bound lanes mask n m = omega (arith, pow-le-pow_right two_pos n, m)

power_pos : (lanes : ℕ) → 0 < 2 ^ lanes
power_pos lanes = let least : 0 ≤ lanes = omega arith in pow-le-pow_right two_pos least

-- A comma is passed over; a digit adds its lane.
data Passes (comma : Bool) (lanes c : ℕ) (cs : List ℕ) (odd : Bool) (mask count : ℕ) (r : ℕ × ℕ)
    : Type 0 where
  separator :
      only_loop comma lanes cs (not odd) mask count ≡ some r
      → Passes comma lanes c cs odd mask count r
  digit :
      (lane joined : ℕ)
      → lane_digit c lanes ≡ some lane
      → add_lane mask lane ≡ some joined
      → only_loop comma lanes cs (not odd) joined (count + 1) ≡ some r
      → Passes comma lanes c cs odd mask count r

only_loop-cons :
    (comma : Bool) (lanes c : ℕ) (cs : List ℕ) (odd : Bool) (mask count : ℕ) (r : ℕ × ℕ)
    → only_loop comma lanes (c ∷ cs) odd mask count ≡ some r
    → Passes comma lanes c cs odd mask count r
unfolding only_loop
only_loop-cons comma lanes c cs odd mask count r h = elim (Bool-cases (comma && odd)) [
  | inl skip ↦ separator (ground (arith, skip))
  | inr lanes_turn ↦ digit_of (lane_digit c lanes) refl lanes_turn
]
  where
    added :
        (lane : ℕ) (o : Option ℕ)
        → lane_digit c lanes ≡ some lane
        → add_lane mask lane ≡ o
        → (comma && odd) ≡ false
        → Passes comma lanes c cs odd mask count r
    added lane none d a turn = absurd (ground (arith, d, a, turn, h))
    added lane (some joined) d a turn = digit lane joined d a (ground (arith, d, a, turn, h))

    digit_of :
        (o : Option ℕ)
        → lane_digit c lanes ≡ o
        → (comma && odd) ≡ false
        → Passes comma lanes c cs odd mask count r
    digit_of none d turn = absurd (ground (arith, d, turn, h))
    digit_of (some lane) d turn = added lane (add_lane mask lane) d refl turn

only_loop_selects :
    (comma : Bool) (lanes : ℕ) (text : List ℕ) (odd : Bool) (mask count : ℕ) (r : ℕ × ℕ)
    → lanes ≤ 8
    → mask < 2 ^ lanes
    → count ≡ lanes_in mask
    → only_loop comma lanes text odd mask count ≡ some r
    → (r.0 < 2 ^ lanes) × (r.1 ≡ lanes_in r.0)
only_loop_selects comma lanes [] odd mask count r n m e h = unfold only_loop in ground arith
only_loop_selects comma lanes (c ∷ cs) odd mask count r n m e h =
    elim (only_loop-cons comma lanes c cs odd mask count r h) [
      | separator rest ↦ only_loop_selects comma lanes cs (not odd) mask count r n m e rest
      | digit lane joined d a rest ↦
          let small = power_bound lanes mask n m in
          let lt = lane_digit-lt c lanes lane d in
          let (_, _, _, more) = add_lane_lem mask lane joined small (omega arith) a in
          only_loop_selects comma lanes cs (not odd) joined (count + 1) r n
            (add_lane_bound lanes mask lane joined n m small lt a) (omega (arith, e, more)) rest
    ]

all_lanes : (lanes : ℕ) → 0 < lanes → lanes ≤ 8 → IsSelection lanes (2 ^ lanes - 1) lanes
all_lanes lanes h n = record {
  inside = omega (arith, power_pos lanes);
  counted = sym (lanes_in_all lanes n);
  nonempty = h;
  fits = omega arith;
}

only_result-some :
    (lanes m k mask count : ℕ)
    → only_result lanes (some (m, k)) ≡ some (mask, count)
    → (m ≡ mask) × (k ≡ count) × (0 < k) × (k ≤ lanes)
unfolding only_result
only_result-some lanes m k mask count h = ground arith

-- A selection that is accepted, the default of all lanes included, names lanes of the board only, at
-- least one of them, and comes with their exact number; so no lane was named twice.
pub parse_only-IsSelection :
    (text : Option (List ℕ)) (lanes : ℕ) {mask count : ℕ}
    → parse_only text lanes ≡ some (mask, count)
    → IsSelection lanes mask count
unfolding parse_only
parse_only-IsSelection none lanes {mask} {count} h =
    elim (Bool-cases (lanes == 0 || ltb max_lanes lanes)) [
      | inl bad ↦ absurd (ground (arith, bad))
      | inr fine ↦
          let same : (2 ^ lanes - 1 ≡ mask) × (lanes ≡ count) = ground (arith, fine) in
          renamed same (all_lanes lanes (ground (arith, fine)) (ground (arith, fine)))
    ]
  where
    renamed :
        (2 ^ lanes - 1 ≡ mask) × (lanes ≡ count)
        → IsSelection lanes (2 ^ lanes - 1) lanes
        → IsSelection lanes mask count
    renamed (p, q) sel =
        subst (λ m. IsSelection lanes m count) p
          (subst (λ k. IsSelection lanes (2 ^ lanes - 1) k) q sel)
parse_only-IsSelection (some text) lanes {mask} {count} h =
    elim (Bool-cases (lanes == 0 || ltb max_lanes lanes)) [
      | inl bad ↦ absurd (ground (arith, bad))
      | inr fine ↦ elim (Bool-cases (length text == 0)) [
        | inl empty ↦ absurd (ground (arith, fine, empty))
        | inr long ↦ elim (Bool-cases (has_comma text && length text % 2 == 0)) [
          | inl even ↦ absurd (ground (arith, fine, long, even))
          | inr form ↦
              looped (only_loop (has_comma text) lanes text false 0 0) refl (ground (arith, fine))
                (ground (arith, fine, long, form))
        ]
      ]
    ]
  where
    picked :
        (m k : ℕ)
        → m < 2 ^ lanes
        → k ≡ lanes_in m
        → only_result lanes (some (m, k)) ≡ some (mask, count)
        → IsSelection lanes mask count
    picked m k inside counted f =
        let (same, amount, positive, fits) = only_result-some lanes m k mask count f in
        rw (← same, ← amount)
          (record { inside = inside; counted = counted; nonempty = positive; fits = fits })

    looped :
        (o : Option (ℕ × ℕ))
        → only_loop (has_comma text) lanes text false 0 0 ≡ o
        → lanes ≤ 8
        → only_result lanes o ≡ some (mask, count)
        → IsSelection lanes mask count
    looped none e n f = absurd (unfold only_result in ground arith)
    looped (some (m, k)) e n f =
        let (inside, counted) =
          only_loop_selects (has_comma text) lanes text false 0 0 (m, k) n (power_pos lanes) refl
            e in
        picked m k inside counted f
