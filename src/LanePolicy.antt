-- ===== src/LanePolicy.antt =====
-- bc3_ztex_lane_policy.h: which FPGAs of a board take part, and in which order they are visited. A
-- text is `none` for NULL, or the list of its bytes before the terminating NUL.
pub mod Masks
pub mod Order
pub mod Selection
pub mod Policy
mod Runs
use suprminer_fpga.Prelude.{
  ℕ, zero, suc, ◌+◌, ◌-◌, ◌*◌, ◌%◌, ◌^◌, Bool, true, false, not, ◌&&◌, ◌||◌, ltb, ◌==◌,
  if◌then◌else◌, List, [], ◌∷◌, ◌++◌, Option, none, some, length, replicate, bit_and, bit_or,
}

abbrev pub max_lanes : ℕ
max_lanes = 8

pub record LanePolicy : Type 0 where
  pub selection_mask : ℕ
  pub order : List ℕ
  pub lane_count : ℕ
  pub selected_count : ℕ

-- `none` for `false`.
unfoldable pub lane_digit : ℕ → ℕ → Option ℕ
lane_digit value lane_count =
    if ltb value b'0' || ltb b'7' value
    then none
    else if ltb (value - b'0') lane_count
    then some (value - b'0')
    else none

-- `strchr(text, ',') != NULL`.
unfoldable pub has_comma : List ℕ → Bool
has_comma [] = false
has_comma (c ∷ cs) = c == b',' || has_comma cs

-- The bit of a lane goes into a mask that must not hold it yet.
unfoldable pub add_lane : ℕ → ℕ → Option ℕ
add_lane mask lane =
    if not (bit_and mask (2 ^ lane) == 0) then none else some (bit_or mask (2 ^ lane) % 2 ^ 8)

-- The loop of `parse_only` from an index on: what is left of the text, `parsed_mask` and
-- `parsed_count`. `at_comma` says that the form has commas and the index is odd.
unfoldable pub only_loop : Bool → ℕ → List ℕ → Bool → ℕ → ℕ → Option (ℕ × ℕ)
unfolding add_lane lane_digit
only_loop comma lanes [] odd mask count = some (mask, count)
only_loop comma lanes (c ∷ cs) odd mask count = elim (comma && odd) [
  | true ↦
      let rest = only_loop comma lanes cs (not odd) mask count in if c == b',' then rest else none
  | false ↦ elim (lane_digit c lanes) [
    | none ↦ none
    | some lane ↦ elim (add_lane mask lane) [
      | none ↦ none
      | some mask' ↦ only_loop comma lanes cs (not odd) mask' (count + 1)
    ]
  ]
]

-- The last test of `parse_only`, and the two values that it stores.
unfoldable pub only_result : ℕ → Option (ℕ × ℕ) → Option (ℕ × ℕ)
only_result lanes none = none
only_result lanes (some (mask, count)) =
    if count == 0 || ltb lanes count then none else some (mask, count)

-- `some (mask, selected_count)` for `true`.
unfoldable pub parse_only : Option (List ℕ) → ℕ → Option (ℕ × ℕ)
unfolding only_loop only_result
parse_only none lanes =
    if lanes == 0 || ltb max_lanes lanes then none else some (2 ^ lanes - 1, lanes)
parse_only (some text) lanes =
    if lanes == 0 || ltb max_lanes lanes
    then none
    else if length text == 0
    then none
    else if has_comma text && length text % 2 == 0
    then none
    else only_result lanes (only_loop (has_comma text) lanes text false 0 0)

-- 0, 1, …: the natural order from `first` on.
unfoldable pub count_from : ℕ → ℕ → List ℕ
count_from first zero = []
count_from first (suc n) = first ∷ count_from (suc first) n

-- The loop of `parse_order`: what is left of the text, and `seen`; the lanes that it stores.
unfoldable pub order_loop : ℕ → List ℕ → ℕ → Option (List ℕ)
unfolding add_lane lane_digit
order_loop lanes [] seen = some []
order_loop lanes (c ∷ cs) seen = elim (lane_digit c lanes) [
  | none ↦ none
  | some lane ↦ elim (add_lane seen lane) [
    | none ↦ none
    | some seen' ↦ elim (order_loop lanes cs seen') [ none ↦ none | some rest ↦ some (lane ∷ rest) ]
  ]
]

-- The array has eight entries: the lanes, and zeros.
abbrev pub fill_order : ℕ → List ℕ → List ℕ
fill_order lanes visited = visited ++ replicate (max_lanes - lanes) 0

unfoldable pub fill_parsed : ℕ → Option (List ℕ) → Option (List ℕ)
fill_parsed lanes none = none
fill_parsed lanes (some visited) = some (fill_order lanes visited)

unfoldable pub parse_order : Option (List ℕ) → ℕ → Option (List ℕ)
unfolding count_from order_loop fill_parsed
parse_order none lanes =
    if lanes == 0 || ltb max_lanes lanes then none else some (fill_order lanes (count_from 0 lanes))
parse_order (some text) lanes =
    if lanes == 0 || ltb max_lanes lanes
    then none
    else if not (length text == lanes)
    then none
    else fill_parsed lanes (order_loop lanes text 0)

-- The policy that is stored; `none` for `false`, where the caller's policy keeps what it held.
unfoldable pub lane_policy_parse : ℕ → Option (List ℕ) → Option (List ℕ) → Option LanePolicy
unfolding parse_only parse_order
lane_policy_parse fpgas fpga_only fpga_order =
    if fpgas == 0 || ltb max_lanes fpgas then none else elim (parse_only fpga_only fpgas) [
      | none ↦ none
      | some (mask, count) ↦ elim (parse_order fpga_order fpgas) [
        | none ↦ none
        | some order ↦ some (record {
          selection_mask = mask;
          order = order;
          lane_count = fpgas;
          selected_count = count;
        })
      ]
    ]
