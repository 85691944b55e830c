-- ===== src/LanePolicy/Policy.antt =====
-- The whole policy of a board.
use suprminer_fpga.Prelude.{
  ℕ, ◌-◌, ◌≡◌, ◌||◌, ltb, ◌==◌, Option, none, some, List, ◌++◌, replicate, Bool-cases, inl, inr,
  arith, false, refl,
}
use suprminer_fpga.LanePolicy.{max_lanes, LanePolicy, parse_only, parse_order, lane_policy_parse}
use suprminer_fpga.LanePolicy.Order.{IsOrder, parse_order-IsOrder}
use suprminer_fpga.LanePolicy.Selection.{IsSelection, parse_only-IsSelection}

-- A policy is stored only when both texts are accepted, and it is then the policy of this board: the
-- mask names some of its lanes and comes with their exact number, and the order visits each of its
-- lanes exactly once, followed by zeros.
pub lane_policy_parse-valid :
    (fpgas : ℕ) (fpga_only fpga_order : Option (List ℕ)) {p : LanePolicy}
    → lane_policy_parse fpgas fpga_only fpga_order ≡ some p
    → (p.lane_count ≡ fpgas)
      × IsSelection fpgas p.selection_mask p.selected_count
      × ((visited : List ℕ) × (p.order ≡ visited ++ replicate (max_lanes - fpgas) 0)
          × IsOrder fpgas visited)
unfolding lane_policy_parse
lane_policy_parse-valid fpgas fpga_only fpga_order {p} h =
    elim (Bool-cases (fpgas == 0 || ltb max_lanes fpgas)) [
      | inl bad ↦ absurd (ground (arith, bad))
      | inr fine ↦ selected (parse_only fpga_only fpgas) refl fine
    ]
  where
    ordered :
        (mask count : ℕ) (o : Option (List ℕ))
        → parse_only fpga_only fpgas ≡ some (mask, count)
        → parse_order fpga_order fpgas ≡ o
        → (fpgas == 0 || ltb max_lanes fpgas) ≡ false
        → (p.lane_count ≡ fpgas)
          × IsSelection fpgas p.selection_mask p.selected_count
          × ((visited : List ℕ) × (p.order ≡ visited ++ replicate (max_lanes - fpgas) 0)
              × IsOrder fpgas visited)
    ordered mask count none a b fine = absurd (ground (arith, a, b, fine))
    ordered mask count (some order) a b fine =
        let same : record {
          selection_mask = mask;
          order = order;
          lane_count = fpgas;
          selected_count = count;
        }
            ≡ p =
          ground (arith, a, b, fine) in
        rw (← same)
          (refl, parse_only-IsSelection fpga_only fpgas a, parse_order-IsOrder fpga_order fpgas b)

    selected :
        (o : Option (ℕ × ℕ))
        → parse_only fpga_only fpgas ≡ o
        → (fpgas == 0 || ltb max_lanes fpgas) ≡ false
        → (p.lane_count ≡ fpgas)
          × IsSelection fpgas p.selection_mask p.selected_count
          × ((visited : List ℕ) × (p.order ≡ visited ++ replicate (max_lanes - fpgas) 0)
              × IsOrder fpgas visited)
    selected none a fine = absurd (ground (arith, a, fine))
    selected (some (mask, count)) a fine =
        ordered mask count (parse_order fpga_order fpgas) a refl fine
