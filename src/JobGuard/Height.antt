-- ===== src/JobGuard/Height.antt =====
-- The block height in a coinbase: every read is in bounds, and what the answer can be.
use suprminer_fpga.Prelude.{
  ℕ, zero, suc, ◌+◌, ◌-◌, ◌*◌, ◌%◌, ◌^◌, ◌≤◌, ◌≡◌, ◌⊎◌, inl, inr, refl, false, ◌&&◌, ◌||◌, ltb, leb,
  ◌==◌, if◌then◌else◌, List, Option, some, length, get_or, get_elem?_in, bit_or, arith, Bool-cases,
}
use suprminer_fpga.Prelude.Bits.{le-bit_or}
use suprminer_fpga.JobGuard.{
  decred_height, seek_tag, pass_tag, or_bytes, tagged_height, search_height, coinbase_height,
}

-- The search for the tag ends within its rounds.
seek_tag_total :
    (cb : List ℕ) (r i : ℕ)
    → i + r ≤ length cb
    → (j : ℕ) × (seek_tag cb r i ≡ some j) × (i ≤ j) × (j ≤ i + r)
unfolding seek_tag
seek_tag_total cb zero i h = (i, refl, omega arith, omega arith)
seek_tag_total cb (suc r) i h =
    rw (get_elem?_in cb i 0 (omega arith)) (elim (Bool-cases (get_or cb i 0 == 0xff)) [
      | inl e ↦ rw e (i, refl, omega arith, omega arith)
      | inr e ↦
          let (j, p, q, t) = seek_tag_total cb r (suc i) (omega arith) in
          rw e (j, p, omega arith, omega arith)
    ])

pass_tag_total :
    (cb : List ℕ) (r i : ℕ)
    → i + r ≤ length cb
    → (j : ℕ) × (pass_tag cb r i ≡ some j) × (i ≤ j) × (j ≤ i + r)
unfolding pass_tag
pass_tag_total cb zero i h = (i, refl, omega arith, omega arith)
pass_tag_total cb (suc r) i h =
    rw (get_elem?_in cb i 0 (omega arith)) (elim (Bool-cases (get_or cb i 0 == 0xff)) [
      | inl e ↦
          let (j, p, q, t) = pass_tag_total cb r (suc i) (omega arith) in
          rw e (j, p, omega arith, omega arith)
      | inr e ↦ rw e (i, refl, omega arith, omega arith)
    ])

-- The bits of the height that are set stay set.
or_bytes_total :
    (cb : List ℕ) (r i byte height : ℕ)
    → i + byte + r ≤ length cb
    → (h : ℕ) × (or_bytes cb r i byte height ≡ some h) × (height ≤ h)
unfolding or_bytes
or_bytes_total cb zero i byte height h = (height, refl, omega arith)
or_bytes_total cb (suc r) i byte height h =
    let b = get_or cb (i + byte) 0 in
    let v = b * 2 ^ (8 * byte) % 2 ^ 32 in
    let (x, p, q) = or_bytes_total cb r i (suc byte) (bit_or height v) (omega arith) in
    rw (get_elem?_in cb (i + byte) 0 (omega arith)) (x, p, omega (arith, le-bit_or height v))

-- `none` is excluded, and a nonzero answer has all bits of the start value: it is no smaller.
abbrev pub Grows : ℕ → Option ℕ → Type 0
Grows height o = (h : ℕ) × (o ≡ some h) × ((h ≡ 0) ⊎ (height ≤ h))

tagged_height_total : (cb : List ℕ) (height i : ℕ) → Grows height (tagged_height cb height i)
unfolding tagged_height
tagged_height_total cb height i = elim (Bool-cases (leb (length cb) i)) [
  | inl e ↦ rw e (0, refl, inl refl)
  | inr e ↦
      let n = get_or cb i 0 in
      rw (e, get_elem?_in cb i 0 (ground arith))
        (elim (Bool-cases (n == 0 || ltb 4 n || ltb (length cb - suc i) n)) [
          | inl bad ↦ rw bad (0, refl, inl refl)
          | inr fine ↦
              let (h, p, q) = or_bytes_total cb n (suc i) 0 height (ground arith) in
              rw fine (h, p, inr q)
        ])
]

search_height_total : (cb : List ℕ) (height : ℕ) → Grows height (search_height cb height)
unfolding search_height
search_height_total cb height = elim (Bool-cases (leb (length cb) 32)) [
  | inl e ↦ rw e (0, refl, inl refl)
  | inr e ↦
      let stop : ℕ = if ltb (length cb) 160 then length cb else 160 in
      let (start, p, lo, hi) = seek_tag_total cb (stop - 32) 32 (ground arith) in
      let (i, q, lo', hi') = pass_tag_total cb (stop - start) start (ground arith) in
      rw (e, p, q)
        (elim (Bool-cases (ltb (i - start) 2 || leb (length cb) i)) [
          | inl short ↦ rw short (0, refl, inl refl)
          | inr tag ↦ rw tag (tagged_height_total cb height (suc i))
        ])
]

-- The value of bytes 92 to 95, little-endian.
abbrev pub candidate : List ℕ → ℕ
candidate cb =
    bit_or (bit_or (bit_or (get_or cb 92 0) (get_or cb 93 0 * 2 ^ 8)) (get_or cb 94 0 * 2 ^ 16))
      (get_or cb 95 0 * 2 ^ 24)

decred_height_lem : (cb : List ℕ) → 144 ≤ length cb → decred_height cb ≡ some (candidate cb)
unfolding decred_height
decred_height_lem cb h = rw (
  get_elem?_in cb 92 0 (omega arith),
  get_elem?_in cb 93 0 (omega arith),
  get_elem?_in cb 94 0 (omega arith),
  get_elem?_in cb 95 0 (omega arith),
)

-- Whatever the pool sends, no read is out of bounds: an answer is always given.
pub coinbase_height_safe : (cb : List ℕ) → (h : ℕ) × (coinbase_height (some cb) ≡ some h)
unfolding coinbase_height
coinbase_height_safe cb = elim (Bool-cases (ltb (length cb) 144)) [
  | inl e ↦ let (h, p, _) = search_height_total cb 0 in rw e (h, p)
  | inr e ↦
      rw (e, decred_height_lem cb (ground arith))
        (elim (Bool-cases (ltb 0 (candidate cb) && ltb (candidate cb) 100000000)) [
          | inl c ↦ rw c (candidate cb, refl)
          | inr c ↦ let (h, p, _) = search_height_total cb (candidate cb) in rw c (h, p)
        ])
]

-- In a coinbase of 144 bytes or more whose bytes 92 to 95 are a candidate that the Decred test rejects
-- as too large, the rejected candidate stays in the answer: a tagged height that is found is joined
-- to it by `|=`, so that the answer is zero or no plausible height either.
pub rejected_candidate_stays :
    (cb : List ℕ)
    → 144 ≤ length cb
    → 100000000 ≤ candidate cb
    → (h : ℕ) × (coinbase_height (some cb) ≡ some h) × ((h ≡ 0) ⊎ (candidate cb ≤ h))
unfolding coinbase_height
rejected_candidate_stays cb long big =
    let short : ltb (length cb) 144 ≡ false = ground arith in
    let no_height : (ltb 0 (candidate cb) && ltb (candidate cb) 100000000) ≡ false = ground arith in
    rw (short, decred_height_lem cb long, no_height) (search_height_total cb (candidate cb))
