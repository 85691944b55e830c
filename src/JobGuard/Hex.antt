-- ===== src/JobGuard/Hex.antt =====
-- The string tests, against what they accept.
use suprminer_fpga.Prelude.{
  ℕ, zero, suc, ◌+◌, ◌*◌, ◌/◌, ◌≤◌, ◌<◌, ◌≡◌, ◌↔◌, true, ltb, leb, if◌then◌else◌, List, [], ◌∷◌,
  none, some, length, arith, All, uint64_max,
}
use suprminer_fpga.JobGuard.{
  hex_nibble, bounded_loop, string_bounded, hex_exact_loop, hex_exact, hex_bounded_loop,
  hex_bounded,
}

abbrev pub IsHex : ℕ → Type 0
IsHex c = hex_nibble c ≡ true

bounded_loop_lem :
    (text : List ℕ) (r i : ℕ)
    → bounded_loop text r i ≡ (if ltb (length text) r then some (i + length text) else none)
unfolding bounded_loop
bounded_loop_lem text zero i = ground arith
bounded_loop_lem [] (suc r) i = ground arith
bounded_loop_lem (c ∷ cs) (suc r) i = ground (arith, bounded_loop_lem cs r (suc i))

-- A string is accepted exactly when it is no longer than the maximum, and its length is the answer.
pub string_bounded_lem :
    (text : List ℕ) (maximum : ℕ)
    → string_bounded (some text) maximum
      ≡ (if leb (length text) maximum then some (length text) else none)
unfolding string_bounded
string_bounded_lem text maximum = ground (arith, bounded_loop_lem text (suc maximum) 0)

hex_exact_loop_iff :
    (text : List ℕ) (r : ℕ) → (hex_exact_loop text r ≡ true) ↔ ((length text ≡ r) × All IsHex text)
unfolding hex_exact_loop
hex_exact_loop_iff [] zero = ground arith
hex_exact_loop_iff (c ∷ cs) zero = ground arith
hex_exact_loop_iff [] (suc r) = ground arith
hex_exact_loop_iff (c ∷ cs) (suc r) = ground (arith, hex_exact_loop_iff cs r)

-- For a byte count whose double is a `size_t`: exactly the texts of that many pairs of hexadecimal
-- digits are accepted.
pub hex_exact_iff :
    (text : List ℕ) (bytes : ℕ)
    → bytes ≤ uint64_max / 2
    → (hex_exact (some text) bytes ≡ true) ↔ ((length text ≡ bytes * 2) × All IsHex text)
unfolding hex_exact
hex_exact_iff text bytes h = ground (arith, hex_exact_loop_iff text (bytes * 2))

hex_bounded_loop_iff :
    (text : List ℕ) (r chars n : ℕ)
    → (hex_bounded_loop text r chars ≡ some n)
      ↔ ((length text < r) × (chars + length text ≡ n * 2) × All IsHex text)
unfolding hex_bounded_loop
hex_bounded_loop_iff text zero chars n = ground arith
hex_bounded_loop_iff [] (suc r) chars n = ground arith
hex_bounded_loop_iff (c ∷ cs) (suc r) chars n =
    ground (arith, hex_bounded_loop_iff cs r (suc chars) n)

-- The bounded test answers `n` exactly when the text is `n` pairs of hexadecimal digits and `n` is at
-- most the maximum.
pub hex_bounded_iff :
    (text : List ℕ) (maximum n : ℕ)
    → maximum ≤ uint64_max / 2
    → (hex_bounded (some text) maximum ≡ some n)
      ↔ ((n ≤ maximum) × (hex_exact (some text) n ≡ true))
unfolding hex_bounded
hex_bounded_iff text maximum n h =
    let loop = hex_bounded_loop_iff text (suc (maximum * 2)) 0 n in
    (
      λ e. ground (arith, loop, hex_exact_iff text n),
      λ p. ground (arith, loop, hex_exact_iff text n),
    )
