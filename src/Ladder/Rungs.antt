-- ===== src/Ladder/Rungs.antt =====
-- The searches for an image, and the mask of tainted rungs.
use suprminer_fpga.Prelude.{
  ℕ, zero, suc, ◌+◌, ◌-◌, ◌≤◌, ◌<◌, ◌≡◌, ◌⊎◌, inl, inr, refl, Bool, true, false, ◌||◌, leb, ◌==◌,
  List, length, get_or, ℤ, pos, negsuc, arith, Bool-cases, subst,
}
use suprminer_fpga.Ladder.{search_down, search_up, is_rung, initial_rung, next_slower, next_faster}

abbrev pub Available : List Bool → ℕ → Type 0
Available available r = get_or available r false ≡ true

abbrev pub Missing : List Bool → ℕ → Type 0
Missing available r = get_or available r false ≡ false

-- `z` is the largest available rung below `n`, or -1 when there is none.
pub data LargestBelow (available : List Bool) (n : ℕ) (z : ℤ) : Type 0 where
  found :
      (r : ℕ)
      → z ≡ pos r
      → r < n
      → Available available r
      → ((j : ℕ) → r < j → j < n → Missing available j)
      → LargestBelow available n z
  absent : z ≡ negsuc 0 → ((j : ℕ) → j < n → Missing available j) → LargestBelow available n z

-- `z` is the smallest available rung from `a` on and below `n`, or -1 when there is none.
pub data SmallestFrom (available : List Bool) (a n : ℕ) (z : ℤ) : Type 0 where
  found :
      (r : ℕ)
      → z ≡ pos r
      → a ≤ r
      → r < n
      → Available available r
      → ((j : ℕ) → a ≤ j → j < r → Missing available j)
      → SmallestFrom available a n z
  absent :
      z ≡ negsuc 0 → ((j : ℕ) → a ≤ j → j < n → Missing available j) → SmallestFrom available a n z

eq_or_lt : (j n : ℕ) → j < suc n → (j ≡ n) ⊎ (j < n)
eq_or_lt j n h = ground arith

search_down-LargestBelow :
    (available : List Bool) (n : ℕ) → LargestBelow available n (search_down available n)
unfolding search_down
search_down-LargestBelow available zero = absent refl (λ j h. absurd (omega arith))
search_down-LargestBelow available (suc n) = elim (Bool-cases (get_or available n false)) [
  | inl here ↦ rw here (found n refl (omega arith) here (λ j p q. absurd (omega arith)))
  | inr gone ↦ rw gone (extend gone (search_down-LargestBelow available n))
]
  where
    missing :
        get_or available n false ≡ false
        → (j : ℕ) → j < suc n
        → (j < n → Missing available j)
        → Missing available j
    missing gone j q rest = elim (eq_or_lt j n q) [ inl e ↦ rw e gone | inr lt ↦ rest lt ]

    extend :
        get_or available n false ≡ false
        → LargestBelow available n (search_down available n)
        → LargestBelow available (suc n) (search_down available n)
    extend gone (found r e lt a above) =
        found r e (omega arith) a (λ j p q. missing gone j q (above j p))
    extend gone (absent e all) = absent e (λ j q. missing gone j q (all j))

search_up-SmallestFrom :
    (available : List Bool) (r a : ℕ) → SmallestFrom available a (a + r) (search_up available r a)
unfolding search_up
search_up-SmallestFrom available zero a = absent refl (λ j p q. absurd (omega arith))
search_up-SmallestFrom available (suc r) a = elim (Bool-cases (get_or available a false)) [
  | inl here ↦
      rw here (found a refl (omega arith) (omega arith) here (λ j p q. absurd (omega arith)))
  | inr gone ↦ rw gone (extend gone (search_up-SmallestFrom available r (suc a)))
]
  where
    missing :
        get_or available a false ≡ false
        → (j : ℕ) → a ≤ j
        → (suc a ≤ j → Missing available j)
        → Missing available j
    missing gone j p rest = elim (eq_or_lt a j (omega arith)) [
      | inl e ↦ rw (← e) gone
      | inr lt ↦ rest lt
    ]

    extend :
        get_or available a false ≡ false
        → SmallestFrom available (suc a) (suc a + r) (search_up available r (suc a))
        → SmallestFrom available a (a + suc r) (search_up available r (suc a))
    extend gone (found k e lo hi b below) =
        found k e (omega arith) (omega arith) b (λ j p q. missing gone j p (λ t. below j t q))
    extend gone (absent e all) = absent e (λ j p q. missing gone j p (λ t. all j t (omega arith)))

up_to_end :
    (available : List Bool) (a : ℕ)
    → a ≤ length available
    → SmallestFrom available a (length available) (search_up available (length available - a) a)
up_to_end available a h =
    let whole : a + (length available - a) ≡ length available = omega arith in
    subst (λ n. SmallestFrom available a n (search_up available (length available - a) a)) whole
      (search_up-SmallestFrom available (length available - a) a)

-- For a preferred rung below the count: if an image is available up to it, the initial rung is the
-- largest such rung. If none is, it is the smallest available rung above the preferred one, or -1 if no
-- image is available there either.
pub initial_rung_nearest :
    (available : List Bool) (preferred : ℕ)
    → preferred < length available
    → ((r : ℕ) × (initial_rung available (pos preferred) ≡ pos r)
        × (r ≤ preferred)
        × Available available r
        × ((j : ℕ) → r < j → j ≤ preferred → Missing available j))
      ⊎ (((j : ℕ) → j ≤ preferred → Missing available j)
          × SmallestFrom available
              (suc preferred)
              (length available)
              (initial_rung available (pos preferred)))
unfolding initial_rung
initial_rung_nearest available preferred h =
    let inside : (length available == 0 || leb (length available) preferred) ≡ false =
      ground arith in
    elim (search_down-LargestBelow available (suc preferred)) [
      | found r e lt a above ↦
          let good : is_rung (search_down available (suc preferred)) ≡ true = rw e in
          inl (r, rw (inside, good) e, omega arith, a, λ j p q. above j p (omega arith))
      | absent e all ↦
          let bad : is_rung (search_down available (suc preferred)) ≡ false = rw e in
          inr (λ j p. all j (omega arith), rw (inside, bad) (up_to_end available (suc preferred) h))
    ]

-- For a current rung below the count, the next slower image is the largest available rung below it,
-- the next faster image the smallest one above it; -1 when there is none.
pub next_rungs_nearest :
    (available : List Bool) (current : ℕ)
    → current < length available
    → LargestBelow available current (next_slower available (pos current))
      × SmallestFrom available
          (suc current)
          (length available)
          (next_faster available (pos current))
unfolding next_slower next_faster
next_rungs_nearest available current h =
    let inside : (length available == 0 || leb (length available) current) ≡ false = ground arith in
    (
      elim (Bool-cases (current == 0)) [
        | inl z ↦ absent (ground arith) (λ j p. absurd (ground arith))
        | inr nz ↦
            let guarded : (length available == 0 || current == 0 || leb (length available) current)
                ≡ false =
              ground arith in
            rw guarded (search_down-LargestBelow available current)
      ],
      rw inside (up_to_end available (suc current) h),
    )
