-- ===== src/LanePolicy/Runs.antt =====
-- Runs of the parser, and concrete cases of its theorems.
use suprminer_fpga.Prelude.{ℕ, ◌-◌, ◌≡◌, refl, none, some, List, [], ◌∷◌, ◌++◌, replicate}
use suprminer_fpga.LanePolicy.{
  max_lanes, LanePolicy, lane_digit, has_comma, add_lane, only_loop, only_result, parse_only,
  count_from, order_loop, fill_parsed, parse_order, lane_policy_parse,
}
use suprminer_fpga.LanePolicy.Order.{IsOrder}
use suprminer_fpga.LanePolicy.Selection.{IsSelection}
use suprminer_fpga.LanePolicy.Policy.{lane_policy_parse-valid}

-- "0,3" and "2031" on a board of four FPGAs.
abbrev two_lanes : List ℕ
two_lanes = b'0' ∷ b',' ∷ b'3' ∷ []

abbrev visits : List ℕ
visits = b'2' ∷ b'0' ∷ b'3' ∷ b'1' ∷ []

abbrev policy : LanePolicy
policy = record {
  selection_mask = 0b1001;
  order = 2 ∷ 0 ∷ 3 ∷ 1 ∷ 0 ∷ 0 ∷ 0 ∷ 0 ∷ [];
  lane_count = 4;
  selected_count = 2;
}

parsed : lane_policy_parse 4 (some two_lanes) (some visits) ≡ some policy
unfolding lane_policy_parse parse_only parse_order only_loop only_result order_loop fill_parsed
    has_comma lane_digit add_lane
parsed = refl

defaults :
    lane_policy_parse 2 none none
    ≡ some (record {
      selection_mask = 0b11;
      order = 0 ∷ 1 ∷ 0 ∷ 0 ∷ 0 ∷ 0 ∷ 0 ∷ 0 ∷ [];
      lane_count = 2;
      selected_count = 2;
    })
unfolding lane_policy_parse parse_only parse_order count_from
defaults = refl

repeated_lane : parse_only (some (b'1' ∷ b'1' ∷ [])) 4 ≡ none
unfolding parse_only only_loop only_result has_comma lane_digit add_lane
repeated_lane = refl

trailing_comma : parse_only (some (b'1' ∷ b',' ∷ [])) 4 ≡ none
unfolding parse_only has_comma
trailing_comma = refl

lane_policy_parse-valid_example :
    (policy.lane_count ≡ 4)
    × IsSelection 4 policy.selection_mask policy.selected_count
    × ((visited : List ℕ) × (policy.order ≡ visited ++ replicate (max_lanes - 4) 0)
        × IsOrder 4 visited)
lane_policy_parse-valid_example = lane_policy_parse-valid 4 (some two_lanes) (some visits) parsed
