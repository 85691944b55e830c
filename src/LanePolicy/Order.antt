-- ===== src/LanePolicy/Order.antt =====
-- The visiting order: a permutation of the board's lanes.
use suprminer_fpga.Prelude.{
  All-map, All-both, ℕ, zero, suc, ◌+◌, ◌-◌, ◌≤◌, ◌<◌, ◌≡◌, ◌≢◌, inl, inr, refl, Bool, false, ◌||◌,
  ltb, ◌==◌, Option, none, some, arith, List, [], ◌∷◌, ◌++◌, All, length, replicate, Bool-cases, ap,
  sym, ◌∙◌,
}
use suprminer_fpga.LanePolicy.{
  max_lanes, add_lane, lane_digit, order_loop, count_from, fill_parsed, parse_order,
}
use suprminer_fpga.LanePolicy.Masks.{has_lane, add_lane_lem, has_lane-add_lane, lane_digit-lt}

abbrev pub Distinct : List ℕ → Type 0
Distinct [] = Unit {0}
Distinct (l ∷ ls) = All (λ k. l ≢ k) ls × Distinct ls

-- Each of the `lanes` lanes once.
pub record IsOrder (lanes : ℕ) (visited : List ℕ) : Type 0 where
  pub whole : length visited ≡ lanes
  pub inside : All (λ l. l < lanes) visited
  pub distinct : Distinct visited

abbrev Unseen : ℕ → ℕ → Type 0
Unseen seen l = has_lane seen l ≡ false

-- How the loop passes one digit.
abbrev Passes : ℕ → ℕ → ℕ → List ℕ → List ℕ → Type 0
Passes lanes c seen cs visited =
    (lane : ℕ) × (seen' : ℕ) × (rest : List ℕ) × (lane_digit c lanes ≡ some lane)
    × (add_lane seen lane ≡ some seen')
    × (order_loop lanes cs seen' ≡ some rest)
    × (visited ≡ lane ∷ rest)

order_loop-cons :
    (lanes c seen : ℕ) (cs visited : List ℕ)
    → order_loop lanes (c ∷ cs) seen ≡ some visited
    → Passes lanes c seen cs visited
unfolding order_loop
order_loop-cons lanes c seen cs visited h = digit (lane_digit c lanes) refl
  where
    rest_of :
        (lane seen' : ℕ) (o : Option (List ℕ))
        → lane_digit c lanes ≡ some lane
        → add_lane seen lane ≡ some seen'
        → order_loop lanes cs seen' ≡ o
        → Passes lanes c seen cs visited
    rest_of lane seen' none d a r = absurd (ground (arith, d, a, r, h))
    rest_of lane seen' (some rest) d a r = (lane, seen', rest, d, a, r, ground (arith, d, a, r, h))

    added :
        (lane : ℕ) (o : Option ℕ)
        → lane_digit c lanes ≡ some lane
        → add_lane seen lane ≡ o
        → Passes lanes c seen cs visited
    added lane none d a = absurd (ground (arith, d, a, h))
    added lane (some seen') d a = rest_of lane seen' (order_loop lanes cs seen') d a refl

    digit : (o : Option ℕ) → lane_digit c lanes ≡ o → Passes lanes c seen cs visited
    digit none d = absurd (ground (arith, d, h))
    digit (some lane) d = added lane (add_lane seen lane) d refl

order_loop_visits :
    (lanes seen : ℕ) (text visited : List ℕ)
    → lanes ≤ 8
    → seen < 256
    → order_loop lanes text seen ≡ some visited
    → (length visited ≡ length text)
      × All (λ l. l < lanes) visited
      × All (Unseen seen) visited
      × Distinct visited
order_loop_visits lanes seen [] visited n s h = unfold order_loop in ground arith
order_loop_visits lanes seen (c ∷ cs) visited n s h =
    let (lane, seen', rest, d, a, r, e) = order_loop-cons lanes c seen cs visited h in
    let lt = lane_digit-lt c lanes lane d in
    let (joined, new, small, _) = add_lane_lem seen lane seen' s (omega arith) a in
    let (len, inside, unseen, distinct) = order_loop_visits lanes seen' cs rest n small r in
    let later =
      All-both _ _ (λ l. Unseen seen l × (lane ≢ l)) rest (apart lane seen' s a lt) inside unseen in
    rw e (
      ap suc len,
      (lt, inside),
      (new, All-map _ _ rest (λ l p. p.0) later),
      (All-map _ _ rest (λ l p. p.1) later, distinct),
    )
  where
    neither : (b : Bool) (l lane : ℕ) → (b || l == lane) ≡ false → (b ≡ false) × (lane ≢ l)
    neither b l lane e = ground arith

    apart :
        (lane seen' : ℕ)
        → seen < 256
        → add_lane seen lane ≡ some seen'
        → lane < lanes
        → (l : ℕ) → l < lanes
        → Unseen seen' l
        → Unseen seen l × (lane ≢ l)
    apart lane seen' s a lt l inside u =
        let member = has_lane-add_lane seen lane seen' l s (omega arith) (omega arith) a in
        neither (has_lane seen l) l lane (sym member ∙ u)

count_from_visits :
    (lanes first n : ℕ)
    → first + n ≤ lanes
    → (length (count_from first n) ≡ n)
      × All (λ l. l < lanes) (count_from first n)
      × All (λ l. first ≤ l) (count_from first n)
      × Distinct (count_from first n)
unfolding count_from
count_from_visits lanes first zero h = (refl, tt, tt, tt)
count_from_visits lanes first (suc n) h =
    let (len, inside, above, distinct) = count_from_visits lanes (suc first) n (omega arith) in
    (
      ap suc len,
      (omega arith, inside),
      (omega arith, All-map _ _ _ (λ l p. omega arith) above),
      (All-map _ _ _ (λ l p. λ e. absurd (omega arith)) above, distinct),
    )

-- An order that is accepted, the default one included, visits each of the board's lanes exactly
-- once; the rest of the eight entries are zero.
pub parse_order-IsOrder :
    (text : Option (List ℕ)) (lanes : ℕ) {order : List ℕ}
    → parse_order text lanes ≡ some order
    → (visited : List ℕ) × (order ≡ visited ++ replicate (max_lanes - lanes) 0)
      × IsOrder lanes visited
unfolding parse_order
parse_order-IsOrder none lanes {order} h = elim (Bool-cases (lanes == 0 || ltb max_lanes lanes)) [
  | inl bad ↦ absurd (ground (arith, bad))
  | inr fine ↦
      let (len, inside, _, distinct) = count_from_visits lanes 0 lanes (omega arith) in
      (
        count_from 0 lanes,
        ground (arith, fine),
        record { whole = len; inside = inside; distinct = distinct },
      )
]
parse_order-IsOrder (some text) lanes {order} h =
    elim (Bool-cases (lanes == 0 || ltb max_lanes lanes)) [
      | inl bad ↦ absurd (ground (arith, bad))
      | inr fine ↦ elim (Bool-cases (length text == lanes)) [
        | inr short ↦ absurd (ground (arith, fine, short))
        | inl whole ↦
            looped (order_loop lanes text 0) refl (ground (arith, fine)) (ground arith)
              (ground (arith, fine, whole))
      ]
    ]
  where
    looped :
        (o : Option (List ℕ))
        → order_loop lanes text 0 ≡ o
        → lanes ≤ 8
        → length text ≡ lanes
        → fill_parsed lanes o ≡ some order
        → (visited : List ℕ) × (order ≡ visited ++ replicate (max_lanes - lanes) 0)
          × IsOrder lanes visited
    looped none e n w f = absurd (unfold fill_parsed in ground arith)
    looped (some visited) e n w f =
        let (len, inside, _, distinct) = order_loop_visits lanes 0 text visited n (omega arith) e in
        (
          visited,
          unfold fill_parsed in ground arith,
          record { whole = len ∙ w; inside = inside; distinct = distinct },
        )
