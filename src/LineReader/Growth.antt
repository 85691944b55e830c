-- ===== src/LineReader/Growth.antt =====
-- The growth of the buffer: the loop ends, and an append is refused only for a reason.
use suprminer_fpga.Prelude.{
  ℕ, zero, suc, ◌+◌, ◌-◌, ◌*◌, ◌/◌, ◌<◌, ◌≤◌, ◌≡◌, ◌⊎◌, inl, inr, refl, Bool, true, false, ◌||◌,
  ltb, ◌==◌, if◌then◌else◌, List, ◌++◌, none, some, length, length-append, arith, Bool-cases,
}
use suprminer_fpga.LineReader.{
  Buffer, buffer_max, rbufsize, has_nul, grow, appended, stratum_buffer_append,
}

grow_ends :
    (fuel capacity required : ℕ)
    → 0 < capacity
    → capacity ≤ buffer_max + 1
    → required ≤ buffer_max
    → required < capacity + fuel
    → (c : ℕ) × (grow (suc fuel) capacity required ≡ some c) × (required < c) × (c ≤ buffer_max + 1)
unfolding grow
grow_ends zero capacity required h room low enough =
    let wide : ltb capacity (required + 1) ≡ false = ground arith in
    (capacity, rw wide refl, omega arith, room)
grow_ends (suc fuel) capacity required h room low enough =
    elim (Bool-cases (ltb capacity (required + 1))) [
      | inr wide ↦ (capacity, rw wide refl, ground arith, room)
      | inl small ↦ elim (Bool-cases (ltb ((buffer_max + 1) / 2) capacity)) [
        | inl last ↦ (buffer_max + 1, rw (small, last) refl, omega arith, omega arith)
        | inr on ↦
            let le : capacity ≤ (buffer_max + 1) / 2 = ground arith in
            let (c, e, enough_c, small_c) =
              grow_ends fuel (capacity * 2) required (omega arith) (omega (arith, le)) low
                (omega arith) in
            (c, rw (small, on) e, enough_c, small_c)
      ]
    ]

-- For a buffer that is no larger than the largest one: an append puts the bytes behind those in use, in
-- memory with room for them and a NUL, and at most the largest size, and they hold no NUL; or it leaves the buffer as it is,
-- and the bytes hold a NUL, or there are more of them than the bound admits, or there is no memory.
pub stratum_buffer_append_cases :
    (b : Buffer) (s : List ℕ) (reallocated : Bool)
    → b.size ≤ buffer_max + 1
    → ((size : ℕ) × (stratum_buffer_append b s reallocated
          ≡ some (record { bytes = b.bytes ++ s; size = size }))
        × (length (b.bytes ++ s) < size)
        × (size ≤ buffer_max + 1)
        × (has_nul s ≡ false))
      ⊎ (stratum_buffer_append b s reallocated ≡ none)
        × ((has_nul s ≡ true) ⊎ ((buffer_max < length b.bytes + length s) ⊎ (reallocated ≡ false)))
unfolding stratum_buffer_append appended
stratum_buffer_append_cases b s reallocated room =
    let used : ℕ = length b.bytes in
    let required : ℕ = used + length s in
    let len = length-append b.bytes s in
    elim (Bool-cases (has_nul s)) [
      | inl nul ↦ inr (rw nul refl, inl nul)
      | inr clean ↦ elim (Bool-cases (ltb buffer_max required)) [
        | inl over ↦ inr (
          elim (Bool-cases (ltb buffer_max used || ltb (buffer_max - used) (length s))) [
            | inl a ↦ rw (clean, a) refl
            | inr a ↦ rw (clean, a, over) refl
          ],
          inr (inl (ground arith)),
        )
        | inr fits ↦
            let first : (ltb buffer_max used || ltb (buffer_max - used) (length s)) ≡ false =
              ground arith in
            elim (Bool-cases (ltb b.size (required + 1))) [
              | inr wide ↦
                  inl (b.size, rw (clean, first, fits, wide) refl, ground arith, room, clean)
              | inl small ↦
                  let start : ℕ = if b.size == 0 then rbufsize else b.size in
                  let start_pos : 0 < start = ground arith in
                  let start_low : start ≤ buffer_max + 1 = ground arith in
                  let low : required ≤ buffer_max = ground arith in
                  let (c, grown, enough, top) =
                    grow_ends required start required start_pos start_low low (omega arith) in
                  elim (Bool-cases reallocated) [
                    | inl there ↦ inl (
                      c,
                      rw (clean, first, fits, small, grown, there) refl,
                      omega (arith, len, enough),
                      top,
                      clean,
                    )
                    | inr out ↦ inr (rw (clean, first, fits, small, grown, out) refl, inr (inr out))
                  ]
            ]
      ]
    ]
