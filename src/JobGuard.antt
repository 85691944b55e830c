-- ===== src/JobGuard.antt =====
-- stratum_job_guard.h: the checks of a pool's job before it becomes work. `size_t` has 64 bits.
-- A C string is `none` for NULL, or the list of its bytes before the terminating NUL.
pub mod Hex
pub mod Layout
pub mod Height
mod Runs
use suprminer_fpga.Prelude.{
  ℕ, zero, suc, ◌+◌, ◌-◌, ◌*◌, ◌/◌, ◌%◌, ◌^◌, Bool, true, false, not, ◌&&◌, ◌||◌, ltb, leb, ◌==◌,
  if◌then◌else◌, List, [], ◌∷◌, Option, none, some, length, get_elem?, ◌>>=◌, bit_or, uint64_max,
  int_max,
}

abbrev pub xnonce1_max : ℕ
xnonce1_max = 64

abbrev pub xnonce2_max : ℕ
xnonce2_max = 16

abbrev pub coinbase_max : ℕ
coinbase_max = 1048576

unfoldable pub hex_nibble : ℕ → Bool
hex_nibble c =
    (leb b'0' c && leb c b'9') || (leb b'a' c && leb c b'f') || (leb b'A' c && leb c b'F')

-- The loop of `stratum_string_bounded`: what is left of the text, the rounds left, and `i`.
unfoldable pub bounded_loop : List ℕ → ℕ → ℕ → Option ℕ
bounded_loop text zero i = none
bounded_loop [] (suc r) i = some i
bounded_loop (c ∷ cs) (suc r) i = bounded_loop cs r (suc i)

-- `none` for `false`; `some n` for `true` with `*length = n`.
unfoldable pub string_bounded : Option (List ℕ) → ℕ → Option ℕ
string_bounded none maximum = none
string_bounded (some text) maximum = bounded_loop text (suc maximum) 0

-- `bytes * 2` digits, and then the end of the text.
unfoldable pub hex_exact_loop : List ℕ → ℕ → Bool
hex_exact_loop [] zero = true
hex_exact_loop (c ∷ cs) zero = false
hex_exact_loop [] (suc r) = false
hex_exact_loop (c ∷ cs) (suc r) = hex_nibble c && hex_exact_loop cs r

unfoldable pub hex_exact : Option (List ℕ) → ℕ → Bool
hex_exact none bytes = false
hex_exact (some text) bytes =
    if ltb (uint64_max / 2) bytes then false else hex_exact_loop text (bytes * 2)

-- The loop of `stratum_hex_bounded`: what is left of the text, the rounds left, and `chars`.
unfoldable pub hex_bounded_loop : List ℕ → ℕ → ℕ → Option ℕ
hex_bounded_loop text zero chars = none
hex_bounded_loop [] (suc r) chars = if chars % 2 == 0 then some (chars / 2) else none
hex_bounded_loop (c ∷ cs) (suc r) chars =
    let rest = hex_bounded_loop cs r (suc chars) in if hex_nibble c then rest else none

unfoldable pub hex_bounded : Option (List ℕ) → ℕ → Option ℕ
hex_bounded none maximum = none
hex_bounded (some text) maximum =
    if ltb (uint64_max / 2) maximum then none else hex_bounded_loop text (suc (maximum * 2)) 0

-- `some (xnonce2_offset, coinbase_size)` for `true`. The tests are made in the source's order, so
-- that no subtraction goes below zero.
unfoldable pub coinbase_layout : ℕ → ℕ → ℕ → ℕ → Option (ℕ × ℕ)
coinbase_layout coinb1 xnonce1 xnonce2 coinb2 =
    let offset = coinb1 + xnonce1 in
    let total = offset + xnonce2 in
    if ltb coinbase_max coinb1
      || ltb xnonce1_max xnonce1
      || ltb xnonce2_max xnonce2
      || ltb coinbase_max coinb2
      || ltb (coinbase_max - xnonce1) coinb1
    then none
    else if ltb (coinbase_max - xnonce2) offset
    then none
    else if ltb (coinbase_max - coinb2) total
    then none
    else if total + coinb2 == 0 || ltb int_max (total + coinb2)
    then none
    else some (offset, total + coinb2)

-- Arguments: coinbase size, extranonce2 offset, extranonce2 size.
unfoldable pub xnonce_layout_valid : ℕ → ℕ → ℕ → Bool
xnonce_layout_valid size offset xnonce2 =
    not (size == 0)
    && leb size coinbase_max
    && leb size int_max
    && leb offset size
    && leb xnonce2 (size - offset)

-- The reads of the coinbase are made through `get_elem?`, so that `none` is a read out of bounds.
-- The Decred candidate: bytes 92 to 95, little-endian.
unfoldable pub decred_height : List ℕ → Option ℕ
decred_height cb = do
  b0 ← get_elem? cb 92
  b1 ← get_elem? cb 93
  b2 ← get_elem? cb 94
  b3 ← get_elem? cb 95
  some (bit_or (bit_or (bit_or b0 (b1 * 2 ^ 8)) (b2 * 2 ^ 16)) (b3 * 2 ^ 24))

-- `while (i < search_end && coinbase[i] is not 0xff) ++i`, with `search_end - i` rounds left.
unfoldable pub seek_tag : List ℕ → ℕ → ℕ → Option ℕ
seek_tag cb zero i = some i
seek_tag cb (suc r) i = do
  b ← get_elem? cb i
  let rest = seek_tag cb r (suc i)
  if b == 0xff then some i else rest

-- `while (i < search_end && coinbase[i] == 0xff) ++i`.
unfoldable pub pass_tag : List ℕ → ℕ → ℕ → Option ℕ
pass_tag cb zero i = some i
pass_tag cb (suc r) i = do
  b ← get_elem? cb i
  let rest = pass_tag cb r (suc i)
  if b == 0xff then rest else some i

-- `height |= coinbase[i + byte] << 8 * byte` for the bytes left, from `byte` on.
unfoldable pub or_bytes : List ℕ → ℕ → ℕ → ℕ → ℕ → Option ℕ
or_bytes cb zero i byte height = some height
or_bytes cb (suc r) i byte height = do
  b ← get_elem? cb (i + byte)
  or_bytes cb r i (suc byte) (bit_or height (b * 2 ^ (8 * byte) % 2 ^ 32))

-- From the byte after the tag run on; `i` is past the skipped byte.
unfoldable pub tagged_height : List ℕ → ℕ → ℕ → Option ℕ
tagged_height cb height i = if leb (length cb) i then some 0 else do
  n ← get_elem? cb i
  if n == 0 || ltb 4 n || ltb (length cb - suc i) n then some 0 else or_bytes cb n (suc i) 0 height

-- The search for the tag, with the value that `height` has then.
unfoldable pub search_height : List ℕ → ℕ → Option ℕ
search_height cb height =
    let search_end = if ltb (length cb) 160 then length cb else 160 in
    if leb (length cb) 32 then some 0 else do
      start ← seek_tag cb (search_end - 32) 32
      i ← pass_tag cb (search_end - start) start
      if ltb (i - start) 2 || leb (length cb) i then some 0 else tagged_height cb height (suc i)

unfoldable pub coinbase_height : Option (List ℕ) → Option ℕ
coinbase_height none = some 0
coinbase_height (some cb) = if ltb (length cb) 144 then search_height cb 0 else do
  height ← decred_height cb
  if ltb 0 height && ltb height 100000000 then some height else search_height cb height
