-- ===== src/Encoding/Hex.antt =====
-- Hexadecimal texts: what `bin2hex` writes is read back, and what the guard accepts is read.
use suprminer_fpga.Prelude.{
  ℕ, zero, suc, ◌+◌, ◌-◌, ◌*◌, ◌/◌, ◌%◌, ◌≤◌, ◌<◌, ◌≡◌, refl, ap, ◌∙◌, true, ◌&&◌, leb,
  if◌then◌else◌, List, [], ◌∷◌, ◌++◌, map, some, length, All, arith, uint64_max, Bool-cases, inl,
  inr,
}
use suprminer_fpga.Encoding.{hex_char, bin2hex, digit_value, strtol_digits, strtol_pair, hex2bin}
use suprminer_fpga.JobGuard.{hex_exact}
use suprminer_fpga.JobGuard.Hex.{IsHex, hex_exact_iff}

abbrev pub IsByte : ℕ → Type 0
IsByte b = b < 256

digit_value-hex_char : (d : ℕ) → d < 16 → digit_value (hex_char d) ≡ some d
unfolding digit_value hex_char
digit_value-hex_char d h = ground arith

strtol_pair_digits :
    (a b x y : ℕ)
    → digit_value a ≡ some x
    → digit_value b ≡ some y
    → strtol_pair a b ≡ (x * 16 + y, true)
unfolding strtol_digits
strtol_pair_digits a b x y p q = rw (p, q) refl

strtol_pair-hex_char :
    (byte : ℕ)
    → IsByte byte
    → strtol_pair (hex_char (byte / 16)) (hex_char (byte % 16)) ≡ (byte, true)
strtol_pair-hex_char byte h =
    strtol_pair_digits _ _ (byte / 16) (byte % 16) (digit_value-hex_char (byte / 16) (omega arith))
      (digit_value-hex_char (byte % 16) (omega arith))
    ∙ ap (λ v. (v, true)) (omega arith)

-- A buffer of bytes is read back from the text that `bin2hex` writes for it, whatever follows the text.
pub hex2bin-bin2hex :
    (bytes rest : List ℕ)
    → All IsByte bytes
    → hex2bin (bin2hex bytes ++ rest) (length bytes) ≡ (true, bytes)
unfolding hex2bin bin2hex
hex2bin-bin2hex [] [] h = refl
hex2bin-bin2hex [] (c ∷ rest) h = refl
hex2bin-bin2hex (b ∷ bytes) rest h =
    rw (strtol_pair-hex_char b h.0, hex2bin-bin2hex bytes rest h.1) refl

-- A digit in lower case.
abbrev pub lower : ℕ → ℕ
lower c = if leb b'A' c && leb c b'F' then c + 32 else c

digit_value-IsHex :
    (c : ℕ) → IsHex c → (x : ℕ) × (digit_value c ≡ some x) × (x < 16) × (hex_char x ≡ lower c)
unfolding digit_value hex_char suprminer_fpga.JobGuard.hex_nibble
digit_value-IsHex c h = elim (Bool-cases (leb b'0' c && leb c b'9')) [
  | inl n ↦ (c - b'0', ground arith, ground arith, ground arith)
  | inr n ↦ elim (Bool-cases (leb b'a' c && leb c b'f')) [
    | inl l ↦ (c - b'a' + 10, ground arith, ground arith, ground arith)
    | inr l ↦ (c - b'A' + 10, ground arith, ground arith, ground arith)
  ]
]

-- What reading the digits gives: as many bytes as asked for, that print as the text in lower case.
abbrev pub Decodes : List ℕ → ℕ → Type 0
Decodes text n =
    let r = hex2bin text n in
    (r.0 ≡ true) × (length r.1 ≡ n) × All IsByte r.1 × (bin2hex r.1 ≡ map lower text)

pair-Decodes :
    (a b : ℕ) (s : List ℕ) (n : ℕ) → IsHex a → IsHex b → Decodes s n → Decodes (a ∷ b ∷ s) (suc n)
unfolding hex2bin bin2hex
pair-Decodes a b s n ha hb (good, len, bytes, text) =
    let (x, px, lx, cx) = digit_value-IsHex a ha in
    let (y, py, ly, cy) = digit_value-IsHex b hb in
    let high : (x * 16 + y) / 16 ≡ x = omega arith in
    let low : (x * 16 + y) % 16 ≡ y = omega arith in
    rw (strtol_pair_digits a b x y px py)
      (good, ap suc len, (omega arith, bytes), rw (high, low, cx, cy, text) refl)

digits-Decodes : (n : ℕ) (text : List ℕ) → length text ≡ n * 2 → All IsHex text → Decodes text n
unfolding hex2bin bin2hex
digits-Decodes zero [] len h = (refl, refl, tt, refl)
digits-Decodes zero (c ∷ text) len h = absurd (omega arith)
digits-Decodes (suc n) [] len h = absurd (omega arith)
digits-Decodes (suc n) (a ∷ []) len h = absurd (omega arith)
digits-Decodes (suc n) (a ∷ b ∷ text) len (ha, (hb, h)) =
    pair-Decodes a b text n ha hb (digits-Decodes n text (omega arith) h)

-- For a byte count whose double is a `size_t`: a text that `stratum_hex_exact` accepts for it is read
-- without refusal, to that many bytes, which `bin2hex` prints as the text in lower case.
pub hex_exact-hex2bin :
    (text : List ℕ) (n : ℕ)
    → n ≤ uint64_max / 2
    → hex_exact (some text) n ≡ true
    → let r = hex2bin text n in
      (r.0 ≡ true) × (length r.1 ≡ n) × All IsByte r.1 × (bin2hex r.1 ≡ map lower text)
hex_exact-hex2bin text n small h =
    let (len, digits) = (hex_exact_iff text n small).0 h in digits-Decodes n text len digits
