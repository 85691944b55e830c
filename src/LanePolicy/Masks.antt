-- ===== src/LanePolicy/Masks.antt =====
-- Lane masks as sets of lanes, decided over all masks of eight bits.
use suprminer_fpga.Prelude.{
  ℕ, zero, suc, ◌+◌, ◌-◌, ◌%◌, ◌^◌, ◌≤◌, ◌<◌, ◌≡◌, ◌⊎◌, inl, inr, refl, Bool, true, false, not,
  ◌&&◌, ◌||◌, ltb, ◌==◌, if◌then◌else◌, some, bit_and, bit_or, arith, and_parts, Bool-cases, ==_iff,
  ◌∙◌,
}
use suprminer_fpga.LanePolicy.{add_lane, lane_digit}

-- The test of a lane's bit.
abbrev pub has_lane : ℕ → ℕ → Bool
has_lane mask lane = not (bit_and mask (2 ^ lane) == 0)

all_below : (ℕ → Bool) → ℕ → Bool
all_below P zero = true
all_below P (suc n) = P n && all_below P n

all_below_lem : (P : ℕ → Bool) (n i : ℕ) → all_below P n ≡ true → i < n → P i ≡ true
unfolding all_below
all_below_lem P zero i h lt = elim lt [ ]
all_below_lem P (suc n) i h lt =
    let (top, rest) = and_parts _ _ h in
    elim (last i n lt) [ inl e ↦ rw e top | inr below ↦ all_below_lem P n i rest below ]
  where
    last : (i n : ℕ) → i < suc n → (i ≡ n) ⊎ (i < n)
    last i n h = ground arith

abbrev joined : ℕ → ℕ → ℕ
joined mask lane = bit_or mask (2 ^ lane) % 2 ^ 8

abbrev pub iff : Bool → Bool → Bool
iff true b = b
iff false b = not b

-- The lanes of a mask below 8, counted.
abbrev pub lanes_below : ℕ → ℕ → ℕ
lanes_below mask zero = 0
lanes_below mask (suc n) = (if has_lane mask n then 1 else 0) + lanes_below mask n

abbrev pub lanes_in : ℕ → ℕ
lanes_in mask = lanes_below mask 8

abbrev member_row : ℕ → ℕ → ℕ → Bool
member_row mask lane j = iff (has_lane (joined mask lane) j) (has_lane mask j || j == lane)

member_table :
    all_below (λ mask. all_below (λ lane. all_below (member_row mask lane) 8) 8) 256 ≡ true
unfolding all_below
member_table = refl

abbrev count_row : ℕ → ℕ → Bool
count_row mask lane =
    lanes_in (joined mask lane)
    == (if has_lane mask lane then lanes_in mask else suc (lanes_in mask))

count_table : all_below (λ mask. all_below (count_row mask) 8) 256 ≡ true
unfolding all_below
count_table = refl

abbrev bound_row : ℕ → ℕ → ℕ → Bool
bound_row lanes mask lane =
    not (ltb mask (2 ^ lanes) && ltb lane lanes) || ltb (joined mask lane) (2 ^ lanes)

bound_table :
    all_below (λ lanes. all_below (λ mask. all_below (bound_row lanes mask) 8) 256) 9 ≡ true
unfolding all_below
bound_table = refl

member_joined :
    (mask lane j : ℕ)
    → mask < 256
    → lane < 8
    → j < 8
    → has_lane (joined mask lane) j ≡ (has_lane mask j || j == lane)
member_joined mask lane j m l h =
    iff_eq _ _
      (all_below_lem _ 8 j (all_below_lem _ 8 lane (all_below_lem _ 256 mask member_table m) l) h)
  where
    iff_eq : (a b : Bool) → iff a b ≡ true → a ≡ b
    iff_eq true b e = ground arith
    iff_eq false b e = ground arith

-- What adding a lane to a mask of eight bits does: the lane was not in it, and is the one that is added.
pub add_lane_lem :
    (mask lane mask' : ℕ)
    → mask < 256
    → lane < 8
    → add_lane mask lane ≡ some mask'
    → (mask' ≡ joined mask lane)
      × (has_lane mask lane ≡ false)
      × (mask' < 256)
      × (lanes_in mask' ≡ suc (lanes_in mask))
unfolding add_lane
add_lane_lem mask lane mask' m l h =
    let row = all_below_lem _ 8 lane (all_below_lem _ 256 mask count_table m) l in
    elim (Bool-cases (has_lane mask lane)) [
      | inl e ↦ absurd (ground (arith, e))
      | inr e ↦
          let same : joined mask lane ≡ mask' = ground (arith, e) in
          (ground arith, e, ground arith, rw (← same) (counted mask lane row e))
    ]
  where
    counted :
        (mask lane : ℕ)
        → count_row mask lane ≡ true
        → has_lane mask lane ≡ false
        → lanes_in (joined mask lane) ≡ suc (lanes_in mask)
    counted mask lane row e = (==_iff _ _).0 row ∙ rw e refl

pub has_lane-add_lane :
    (mask lane mask' j : ℕ)
    → mask < 256
    → lane < 8
    → j < 8
    → add_lane mask lane ≡ some mask'
    → has_lane mask' j ≡ (has_lane mask j || j == lane)
has_lane-add_lane mask lane mask' j m l jl h =
    rw (add_lane_lem mask lane mask' m l h).0 (member_joined mask lane j m l jl)

pub add_lane_bound :
    (lanes mask lane mask' : ℕ)
    → lanes ≤ 8
    → mask < 2 ^ lanes
    → mask < 256
    → lane < lanes
    → add_lane mask lane ≡ some mask'
    → mask' < 2 ^ lanes
add_lane_bound lanes mask lane mask' n m small l h =
    let row : bound_row lanes mask lane ≡ true =
      all_below_lem _ 8 lane
        (all_below_lem _ 256 mask (all_below_lem _ 9 lanes bound_table (omega arith)) small)
        (omega arith) in
    let same = (add_lane_lem mask lane mask' small (omega arith) h).0 in bounded row same
  where
    bounded : bound_row lanes mask lane ≡ true → mask' ≡ joined mask lane → mask' < 2 ^ lanes
    bounded row same = ground (arith, lane)

-- A digit names one of the lanes.
pub lane_digit-lt : (c lanes lane : ℕ) → lane_digit c lanes ≡ some lane → lane < lanes
unfolding lane_digit
lane_digit-lt c lanes lane h = ground arith

full_table : all_below (λ lanes. lanes_in (2 ^ lanes - 1) == lanes) 9 ≡ true
unfolding all_below
full_table = refl

-- The mask of all lanes counts them.
pub lanes_in_all : (lanes : ℕ) → lanes ≤ 8 → lanes_in (2 ^ lanes - 1) ≡ lanes
lanes_in_all lanes n = (==_iff _ _).0 (all_below_lem _ 9 lanes full_table (omega arith))
