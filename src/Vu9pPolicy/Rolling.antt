-- ===== src/Vu9pPolicy/Rolling.antt =====
-- The allowance for the time between two polls, and what it guarantees for the nonces.
use suprminer_fpga.Prelude.{
  ℕ, ◌+◌, ◌-◌, ◌*◌, ◌/◌, ◌%◌, ◌^◌, ◌<◌, ◌≤◌, ◌≡◌, ◌↔◌, ◌⊎◌, inl, inr, sym, ap, ◌∙◌, true, ◌||◌, ltb,
  leb, ◌==◌, if◌then◌else◌, arith, Bool-cases,
}
use native.Mathlib.Nat.{
  mul-le-mul_right, div-add-mod', mod-lt, add-mul, zero-mul, mul-zero, mod-eq_of_lt,
}
use suprminer_fpga.Vu9pPolicy.{
  nonce_space_hashes, continue, transaction_timeout_ms, unique_epoch_capacity, hashes_for_ms_capped,
  effective_rate, roll_limit, classify_hash_counter,
}

-- The hashes of an interval in milliseconds at a rate per second, rounded up.
abbrev pub hashes_in : ℕ → ℕ → ℕ
hashes_in rate ms = (rate * ms + 999) / 1000

-- The whole thousands of the rate and the rest of it, over the interval.
rate_parts : (rate ms : ℕ) → rate * ms ≡ rate / 1000 * ms * 1000 + rate % 1000 * ms
rate_parts rate ms =
    ap (λ x. x * ms) (sym (div-add-mod' rate 1000))
    ∙ add-mul (rate / 1000 * 1000) (rate % 1000) ms
    ∙ omega arith

-- The two products that the code forms are the exact ones, and which side of the first test says what.
over_cap : (whole ms cap : ℕ) → 0 < ms → cap / ms < whole → cap ≤ whole * ms
over_cap whole ms cap h lt =
    let le : (cap / ms + 1) * ms ≤ whole * ms = mul-le-mul_right ms (omega arith) in
    omega (arith, le, div-add-mod' cap ms, mod-lt cap h, add-mul (cap / ms) 1 ms)

under_cap : (whole ms cap : ℕ) → whole ≤ cap / ms → whole * ms ≤ cap
under_cap whole ms cap le =
    let le_ms : whole * ms ≤ cap / ms * ms = mul-le-mul_right ms le in
    omega (arith, le_ms, div-add-mod' cap ms)

rest_small : (rest ms : ℕ) → rest < 1000 → ms < 2 ^ 32 → rest * ms < 2 ^ 42
rest_small rest ms lt small =
    let le : rest * ms ≤ 1000 * ms = mul-le-mul_right ms (omega arith) in omega (arith, le)

zero_product :
    (rate ms cap : ℕ) → (rate == 0 || ms == 0 || cap == 0) ≡ true → (rate * ms ≡ 0) ⊎ (cap ≡ 0)
zero_product rate ms cap h = elim (Bool-cases (rate == 0)) [
  | inl r ↦ let e : rate ≡ 0 = ground arith in inl (ap (λ x. x * ms) e ∙ zero-mul ms)
  | inr r ↦ elim (Bool-cases (ms == 0)) [
    | inl m ↦ let e : ms ≡ 0 = ground arith in inl (ap (λ x. rate * x) e ∙ mul-zero rate)
    | inr m ↦ inr (ground arith)
  ]
]

nothing_needed :
    (rate ms cap : ℕ)
    → (rate == 0 || ms == 0 || cap == 0) ≡ true
    → 0 ≡ (if ltb (hashes_in rate ms) cap then hashes_in rate ms else cap)
nothing_needed rate ms cap h = ground (arith, zero_product rate ms cap h)

-- The sum of two parts, or the cap.
sum_capped :
    (p t cap : ℕ)
    → p ≤ cap
    → (if leb cap p || leb (cap - p) t then cap else p + t)
      ≡ (if ltb (p + t) cap then p + t else cap)
sum_capped p t cap h = ground arith

-- For a rate and a cap of 64 bits and an interval of 32 bits, no product wraps: the answer is the exact
-- number of hashes of the interval, rounded up, or the cap if that is smaller.
pub hashes_for_ms_capped_lem :
    (rate ms cap : ℕ)
    → rate < 2 ^ 64
    → ms < 2 ^ 32
    → cap < 2 ^ 64
    → hashes_for_ms_capped rate ms cap
      ≡ (if ltb (hashes_in rate ms) cap then hashes_in rate ms else cap)
unfolding hashes_for_ms_capped
hashes_for_ms_capped_lem rate ms cap hr hm hc =
    let p : ℕ = rate / 1000 * ms in
    let q : ℕ = rate % 1000 * ms in
    let need : hashes_in rate ms ≡ p + (q + 999) / 1000 =
      ap (λ x. (x + 999) / 1000) (rate_parts rate ms) ∙ omega arith in
    let q_small : q < 2 ^ 42 = rest_small (rate % 1000) ms (omega arith) hm in
    let tail : (q + 999) % 2 ^ 64 / 1000 ≡ (q + 999) / 1000 = omega (arith, q_small) in
    elim (Bool-cases (rate == 0 || ms == 0 || cap == 0)) [
      | inl trivial ↦ rw trivial (nothing_needed rate ms cap trivial)
      | inr some_need ↦ elim (Bool-cases (ltb (cap / ms) (rate / 1000))) [
        | inl over ↦
            let full : cap ≤ p = over_cap (rate / 1000) ms cap (ground arith) (ground arith) in
            rw (some_need, over, need) (ground (arith, full))
        | inr under ↦
            let low : p ≤ cap = under_cap (rate / 1000) ms cap (ground arith) in
            let exact : p % 2 ^ 64 ≡ p = mod-eq_of_lt (omega (arith, low)) in
            rw (some_need, under, exact, tail, need) (sum_capped p ((q + 999) / 1000) cap low)
      ]
    ]

rate_small :
    (configured measured : ℕ)
    → configured < 2 ^ 64
    → measured < 2 ^ 64
    → effective_rate configured measured < 2 ^ 64
unfolding effective_rate
rate_small configured measured hc hm = ground arith

-- The limit is what the nonces leave beside the hashes of a poll, or 0 where nothing is left.
roll_limit_lem :
    (configured measured ms : ℕ)
    → configured < 2 ^ 64
    → measured < 2 ^ 64
    → ms < 2 ^ 32
    → roll_limit 1 configured measured ms ≡ (
        if configured == 0 || leb ms 51
        then 0
        else nonce_space_hashes - hashes_in (effective_rate configured measured) ms)
unfolding roll_limit unique_epoch_capacity transaction_timeout_ms
roll_limit_lem configured measured ms hc hm hs =
    let rate : ℕ = effective_rate configured measured in
    let guard =
      hashes_for_ms_capped_lem rate ms nonce_space_hashes (rate_small configured measured hc hm) hs
        (omega arith) in
    rw guard (ground arith)

hashes_in_mono : (a b ms : ℕ) → a ≤ b → hashes_in a ms ≤ hashes_in b ms
hashes_in_mono a b ms h = omega (arith, mul-le-mul_right ms h)

-- Room at the effective rate is room at both rates.
room_iff :
    (current configured measured ms : ℕ)
    → (current + hashes_in (effective_rate configured measured) ms < 2 ^ 32)
      ↔ ((current + hashes_in configured ms < 2 ^ 32) × (current + hashes_in measured ms < 2 ^ 32))
unfolding effective_rate
room_iff current configured measured ms = elim (Bool-cases (ltb configured measured)) [
  | inl faster ↦
      let le = hashes_in_mono configured measured ms (ground arith) in
      rw faster (λ h. (omega (arith, h, le), h), λ h. h.1)
  | inr slower ↦
      let le = hashes_in_mono measured configured ms (ground arith) in
      rw slower (λ h. (h, omega (arith, h, le)), λ h. h.0)
]

-- For rates of 64 bits and a poll bound of 32 bits, in milliseconds: work goes on exactly with one lane, a
-- nonzero configured rate, a poll bound over 51, a counter that did not go back, and enough nonces left
-- for all hashes of one more poll, at the configured rate and at the measured rate.
pub classify_hash_counter-continue_iff :
    (previous current lanes configured measured ms : ℕ)
    → configured < 2 ^ 64
    → measured < 2 ^ 64
    → ms < 2 ^ 32
    → (classify_hash_counter previous current lanes configured measured ms ≡ continue) ↔ (
        (lanes ≡ 1)
        × (0 < configured)
        × (51 < ms)
        × (previous ≤ current)
        × (current + hashes_in configured ms < 2 ^ 32)
        × (current + hashes_in measured ms < 2 ^ 32))
unfolding classify_hash_counter unique_epoch_capacity
classify_hash_counter-continue_iff previous current lanes configured measured ms hc hm hs =
    let (both, one_rate) = room_iff current configured measured ms in
    elim (Bool-cases (lanes == 1)) [
      | inr other ↦ rw other (ground arith)
      | inl one ↦
          let e : lanes ≡ 1 = ground arith in
          rw e
            (rw (roll_limit_lem configured measured ms hc hm hs) (ground (arith, both, one_rate)))
    ]
