-- ===== src/Encoding.antt =====
-- util.c: the encodings of numbers, bytes and addresses, and the test of a hash against its target.
-- A C string is the list of its bytes before the NUL, and a buffer that is written is returned. The
-- double SHA-256 is a parameter.
pub mod Hex
pub mod Varint
pub mod Base58
pub mod Decoded
pub mod Target
mod Runs
use suprminer_fpga.Prelude.{
  ℕ, zero, suc, ◌+◌, ◌-◌, ◌*◌, ◌/◌, ◌%◌, ◌^◌, Bool, true, false, not, ◌&&◌, ◌||◌, ltb, leb, ◌==◌,
  if◌then◌else◌, List, [], ◌∷◌, ◌++◌, Option, none, some, length, get_or, get_elem?, take, drop,
  ◌>>=◌,
}

-- A digit as `%02x` prints it.
unfoldable pub hex_char : ℕ → ℕ
hex_char d = if ltb d 10 then b'0' + d else b'a' + (d - 10)

-- The text that `bin2hex` writes for a buffer.
unfoldable pub bin2hex : List ℕ → List ℕ
bin2hex [] = []
bin2hex (byte ∷ bytes) = hex_char (byte / 16) ∷ hex_char (byte % 16) ∷ bin2hex bytes

-- `abin2hex`, where `allocated` is whether `malloc` gives the buffer; `none` is NULL.
unfoldable pub abin2hex : List ℕ → Bool → Option (List ℕ)
abin2hex bytes allocated =
    if ltb ((2 ^ 64 - 1 - 1) / 2) (length bytes)
    then none
    else if allocated
    then some (bin2hex bytes)
    else none

-- A digit as `strtol` reads it with base 16.
unfoldable pub digit_value : ℕ → Option ℕ
digit_value c =
    if leb b'0' c && leb c b'9'
    then some (c - b'0')
    else if leb b'a' c && leb c b'f'
    then some (c - b'a' + 10)
    else if leb b'A' c && leb c b'F'
    then some (c - b'A' + 10)
    else none

abbrev pub is_space : ℕ → Bool
is_space c = c == b' ' || (leb 9 c && leb c 13)

-- What `strtol(hex_byte, &ep, 16)` gives for a text of two characters, of which the first is `a`: the
-- value as an unsigned char, and whether `*ep` is the NUL. Both are digits; or the second is one, behind
-- a blank or a sign. Else `ep` stops at the first character that is no digit, and the value is that of
-- the digits before it.
unfoldable pub strtol_digits : Option ℕ → Option ℕ → ℕ → ℕ × Bool
strtol_digits (some x) (some y) a = (x * 16 + y, true)
strtol_digits (some x) none a = (x, false)
strtol_digits none (some y) a =
    if is_space a || a == b'+'
    then (y, true)
    else if a == b'-'
    then ((256 - y) % 256, true)
    else (0, false)
strtol_digits none none a = (0, false)

abbrev pub strtol_pair : ℕ → ℕ → ℕ × Bool
strtol_pair a b = strtol_digits (digit_value a) (digit_value b) a

-- The answer of `hex2bin`, and the bytes that it has written.
unfoldable pub hex2bin : List ℕ → ℕ → Bool × List ℕ
hex2bin [] len = (len == 0, [])
hex2bin (a ∷ s) zero = (true, [])
hex2bin (a ∷ []) (suc len) = (false, [])
hex2bin (a ∷ b ∷ s) (suc len) =
    let pair = strtol_pair a b in
    let rest = hex2bin s len in if pair.1 then (rest.0, pair.0 ∷ rest.1) else (false, pair.0 ∷ [])

-- The loop that stores the lowest `k` bytes of a number.
unfoldable pub store_bytes : ℕ → ℕ → List ℕ
store_bytes zero n = []
store_bytes (suc k) n = n % 2 ^ 8 ∷ store_bytes k (n / 2 ^ 8)

-- The bytes of `varint_encode`; their number is its answer.
unfoldable pub varint_encode : ℕ → List ℕ
varint_encode n =
    if ltb n 0xfd
    then n ∷ []
    else if leb n 0xffff
    then 0xfd ∷ n % 2 ^ 8 ∷ n / 2 ^ 8 % 2 ^ 8 ∷ []
    else if leb n 0xffffffff
    then 0xfe ∷ store_bytes 4 n
    else 0xff ∷ store_bytes 8 n

abbrev pub b58digits : List ℕ
b58digits =
    b'1' ∷ b'2' ∷ b'3' ∷ b'4' ∷ b'5' ∷ b'6' ∷ b'7' ∷ b'8' ∷ b'9' ∷ b'A' ∷ b'B' ∷ b'C' ∷ b'D' ∷ b'E'
    ∷ b'F' ∷ b'G' ∷ b'H' ∷ b'J' ∷ b'K' ∷ b'L' ∷ b'M' ∷ b'N' ∷ b'P' ∷ b'Q' ∷ b'R' ∷ b'S' ∷ b'T'
    ∷ b'U' ∷ b'V' ∷ b'W' ∷ b'X' ∷ b'Y' ∷ b'Z' ∷ b'a' ∷ b'b' ∷ b'c' ∷ b'd' ∷ b'e' ∷ b'f' ∷ b'g'
    ∷ b'h' ∷ b'i' ∷ b'j' ∷ b'k' ∷ b'm' ∷ b'n' ∷ b'o' ∷ b'p' ∷ b'q' ∷ b'r' ∷ b's' ∷ b't' ∷ b'u'
    ∷ b'v' ∷ b'w' ∷ b'x' ∷ b'y' ∷ b'z' ∷ []

-- The search of `b58[i]` in what is left of the digits, with `c`.
unfoldable pub b58_search : List ℕ → ℕ → ℕ → Option ℕ
b58_search [] c char = none
b58_search (d ∷ digits) c char = if d == char then some c else b58_search digits (c + 1) char

-- The inner loop, from the last word to the first: the words after it, and `c`.
unfoldable pub b58_multiply : List ℕ → ℕ → List ℕ × ℕ
b58_multiply [] c = ([], c)
b58_multiply (w ∷ words) c =
    let r = b58_multiply words c in let t = w * 58 + r.1 in (t % 2 ^ 32 ∷ r.0, t / 2 ^ 32)

-- `w & remmask` for a word of 32 bits.
unfoldable pub masked : ℕ → ℕ → ℕ
masked rem w = w / 2 ^ (8 * rem) * 2 ^ (8 * rem)

-- The test that ends a round: `none` is `goto out`.
unfoldable pub b58_keep : ℕ → List ℕ → ℕ → Option (List ℕ)
b58_keep rem outi c =
    if not (c == 0) || not (masked rem (get_or outi 0 0) == 0) then none else some outi

-- One round of the outer loop, with the digit that was found.
unfoldable pub b58_round : ℕ → List ℕ → Option ℕ → Option (List ℕ)
b58_round rem outi none = none
b58_round rem outi (some c) = let r = b58_multiply outi c in b58_keep rem r.0 r.1

unfoldable pub b58_loop : ℕ → List ℕ → List ℕ → Option (List ℕ)
b58_loop rem outi [] = some outi
b58_loop rem outi (char ∷ text) =
    b58_round rem outi (b58_search b58digits 0 char) >>= λ next. b58_loop rem next text

abbrev pub be32enc : ℕ → List ℕ
be32enc w = w / 2 ^ 24 % 2 ^ 8 ∷ w / 2 ^ 16 % 2 ^ 8 ∷ w / 2 ^ 8 % 2 ^ 8 ∷ w % 2 ^ 8 ∷ []

-- The `switch` on `rem`, which falls through: the bytes of the first word.
unfoldable pub b58_first : ℕ → ℕ → List ℕ
b58_first rem w =
    if rem == 3
    then w / 2 ^ 16 % 2 ^ 8 ∷ w / 2 ^ 8 % 2 ^ 8 ∷ w % 2 ^ 8 ∷ []
    else if rem == 2
    then w / 2 ^ 8 % 2 ^ 8 ∷ w % 2 ^ 8 ∷ []
    else if rem == 1
    then w % 2 ^ 8 ∷ []
    else be32enc w

unfoldable pub b58_rest : List ℕ → List ℕ
b58_rest [] = []
b58_rest (w ∷ words) = be32enc w ++ b58_rest words

unfoldable pub b58_store : ℕ → List ℕ → List ℕ
b58_store rem [] = []
b58_store rem (w ∷ words) = b58_first rem w ++ b58_rest words

unfoldable pub zero_words : ℕ → List ℕ
zero_words zero = []
zero_words (suc n) = 0 ∷ zero_words n

-- The `binsz` bytes, or `none` for `false`. The `calloc` of the words gives them: the code does not test it.
unfoldable pub b58dec : ℕ → List ℕ → Option (List ℕ)
b58dec binsz text = b58_loop (binsz % 4) (zero_words ((binsz + 3) / 4)) text >>= λ outi.
    some (b58_store (binsz % 4) outi)

-- The loop over the leading zero bytes: whether `bin[i] == 0` or `b58[i] == '1'` where it ends, or
-- `none` for a read behind the bytes. The text reads as NUL at its end.
unfoldable pub leading_ends : List ℕ → List ℕ → Option Bool
leading_ends [] text = none
leading_ends (byte ∷ bytes) [] = some (byte == 0)
leading_ends (byte ∷ bytes) (char ∷ text) =
    let rest = leading_ends bytes text in
    if byte == 0 && char == b'1' then rest else some (byte == 0 || char == b'1')

abbrev pub bytes_match : List ℕ → List ℕ → Bool
bytes_match [] [] = true
bytes_match (x ∷ xs) (y ∷ ys) = x == y && bytes_match xs ys
bytes_match _ _ = false

-- What `b58check` answers: the version byte, or -1, or -3; `out_of_bounds` is a read behind the bytes.
pub data CheckResult : Type 0 where
  version : ℕ → CheckResult
  bad_checksum bad_zeros out_of_bounds : CheckResult

abbrev pub zeros_checked : List ℕ → Option Bool → CheckResult
zeros_checked bin none = out_of_bounds
zeros_checked bin (some true) = bad_zeros
zeros_checked bin (some false) = version (get_or bin 0 0)

unfoldable pub b58check : (List ℕ → List ℕ) → List ℕ → List ℕ → CheckResult
b58check sha256d bin text =
    let n = length bin - 4 in
    if not (bytes_match (drop n bin) (take 4 (sha256d (take n bin))))
    then bad_checksum
    else zeros_checked bin (leading_ends bin text)

-- The script, and `rv`; `none` where `out` is left as it is. `outsz` is the room in `out`.
unfoldable pub address_script : ℕ → List ℕ → ℕ → Option (List ℕ) × ℕ
address_script v bin outsz =
    let hash = take 20 (drop 1 bin) in
    if v == 5 || v == 196
    then (if ltb outsz 23 then none else some (0xa9 ∷ 0x14 ∷ hash ++ (0x87 ∷ [])), 23)
    else (if ltb outsz 25 then none else some (0x76 ∷ 0xa9 ∷ 0x14 ∷ hash ++ (0x88 ∷ 0xac ∷ [])), 25)

-- What `address_to_script` does with the answer of `b58check`; a negative one gives 0.
unfoldable pub script_of : CheckResult → List ℕ → ℕ → Option (List ℕ) × ℕ
script_of (version v) bin outsz = address_script v bin outsz
script_of bad_checksum bin outsz = (none, 0)
script_of bad_zeros bin outsz = (none, 0)
script_of out_of_bounds bin outsz = (none, 0)

-- What it does with the bytes of `b58dec`.
unfoldable pub address_of : (List ℕ → List ℕ) → Option (List ℕ) → List ℕ → ℕ → Option (List ℕ) × ℕ
address_of sha256d none addr outsz = (none, 0)
address_of sha256d (some bin) addr outsz = script_of (b58check sha256d bin addr) bin outsz

unfoldable pub address_to_script : (List ℕ → List ℕ) → ℕ → List ℕ → Option (List ℕ) × ℕ
address_to_script sha256d outsz addr = address_of sha256d (b58dec 25 addr) addr outsz

-- The loop of `fulltest`, with the words that are left, the lowest ones.
unfoldable pub fulltest_loop : ℕ → List ℕ → List ℕ → Bool
fulltest_loop zero hash target = true
fulltest_loop (suc i) hash target =
    let rest = fulltest_loop i hash target in
    if ltb (get_or target i 0) (get_or hash i 0)
    then false
    else if ltb (get_or hash i 0) (get_or target i 0)
    then true
    else rest

unfoldable pub fulltest : List ℕ → List ℕ → Bool
fulltest hash target = fulltest_loop 8 hash target
