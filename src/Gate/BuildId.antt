-- ===== src/Gate/BuildId.antt =====
-- The parser of build ids, against the number that the digits write.
use suprminer_fpga.Prelude.{
  ℕ, ◌+◌, ◌*◌, ◌^◌, ◌<◌, ◌≤◌, ◌≡◌, refl, ap, ◌∙◌, true, ◌==◌, if◌then◌else◌, List, [], ◌∷◌, Option,
  none, some, ◌>>=◌, length, drop, bit_or, subst, arith, Bool-cases, ◌⊎◌, inl, inr, false,
}
use suprminer_fpga.Prelude.Bits.{bit_or-disjoint}
use native.Mathlib.Nat.{mul-le-mul_right, pow-succ', mod-eq_of_lt}
use suprminer_fpga.Encoding.Base58.{pow_pos}
use suprminer_fpga.Gate.{
  hex_value, shift_in, build_id_loop, build_id_result, has_0x, parse_build_id,
}

-- The digits, each with the number that it stands for.
abbrev pub digit_table : List (ℕ × ℕ)
digit_table =
    (b'0', 0)
    ∷ (b'1', 1)
    ∷ (b'2', 2)
    ∷ (b'3', 3)
    ∷ (b'4', 4)
    ∷ (b'5', 5)
    ∷ (b'6', 6)
    ∷ (b'7', 7)
    ∷ (b'8', 8)
    ∷ (b'9', 9)
    ∷ (b'a', 10)
    ∷ (b'b', 11)
    ∷ (b'c', 12)
    ∷ (b'd', 13)
    ∷ (b'e', 14)
    ∷ (b'f', 15)
    ∷ (b'A', 10)
    ∷ (b'B', 11)
    ∷ (b'C', 12)
    ∷ (b'D', 13)
    ∷ (b'E', 14)
    ∷ (b'F', 15)
    ∷ []

abbrev pub find_digit : List (ℕ × ℕ) → ℕ → Option ℕ
find_digit [] c = none
find_digit ((digit, n) ∷ table) c = if c == digit then some n else find_digit table c

-- The number that hexadecimal digits write, behind a number before them.
abbrev pub hex_number : ℕ → List ℕ → Option ℕ
hex_number n [] = some n
hex_number n (c ∷ text) = find_digit digit_table c >>= λ digit. hex_number (n * 16 + digit) text

-- The number that a text of digits writes, unless it is zero.
abbrev pub nonzero_number : List ℕ → Option ℕ
nonzero_number digits = hex_number 0 digits >>= λ n. if n == 0 then none else some n

-- Eight characters, with or without "0x" or "0X" before them.
pub data Writes (text digits : List ℕ) : Type 0 where
  plain : text ≡ digits → length digits ≡ 8 → Writes text digits
  lower_x : text ≡ b'0' ∷ b'x' ∷ digits → length digits ≡ 8 → Writes text digits
  upper_x : text ≡ b'0' ∷ b'X' ∷ digits → length digits ≡ 8 → Writes text digits

hex_value-find_digit : (c : ℕ) → hex_value c ≡ find_digit digit_table c
unfolding hex_value
hex_value-find_digit c = ground arith

hex_value-lt : (c d : ℕ) → hex_value c ≡ some d → d < 16
unfolding hex_value
hex_value-lt c d h = ground arith

shift_in_sum : (v d : ℕ) → v < 2 ^ 28 → d < 16 → shift_in v d ≡ v * 16 + d
shift_in_sum v d hv hd =
    ap (λ x. bit_or d (x * 2 ^ 4)) (mod-eq_of_lt hv) ∙ bit_or-disjoint 4 d v hd ∙ omega arith

-- Room for the digits of `text` behind `v` in 32 bits.
abbrev HasRoom : ℕ → List ℕ → Type 0
HasRoom v text = (v + 1) * 16 ^ length text ≤ 2 ^ 32

room_arith :
    (v d p : ℕ)
    → 0 < p
    → (v + 1) * (16 * p) ≤ 2 ^ 32
    → d < 16
    → ((v * 16 + d + 1) * p ≤ 2 ^ 32) × (v < 2 ^ 28)
room_arith v d p h room lt =
    let le : (v * 16 + d + 1) * p ≤ (v + 1) * 16 * p = mul-le-mul_right p (omega arith) in
    let same : (v + 1) * 16 * p ≡ (v + 1) * (16 * p) = omega arith in
    let one : 1 * (16 * (v + 1)) ≤ p * (16 * (v + 1)) = mul-le-mul_right (16 * (v + 1)) h in
    let flip : p * (16 * (v + 1)) ≡ (v + 1) * (16 * p) = omega arith in
    (omega (arith, le, same), omega (arith, one, flip))

room_next :
    (v d c : ℕ) (text : List ℕ)
    → HasRoom v (c ∷ text)
    → d < 16
    → HasRoom (v * 16 + d) text × (v < 2 ^ 28)
room_next v d c text room lt =
    room_arith v d (16 ^ length text) (pow_pos 16 (length text) (omega arith))
      (subst (λ q. (v + 1) * q ≤ 2 ^ 32) (pow-succ' 16 (length text)) room) lt

loop_step :
    (v c : ℕ) (text : List ℕ) (digit : Option ℕ)
    → HasRoom v (c ∷ text)
    → ((d : ℕ) → digit ≡ some d → d < 16)
    → ((n : ℕ) → HasRoom n text → build_id_loop text n ≡ hex_number n text)
    → (digit >>= λ d. build_id_loop text (shift_in v d))
      ≡ (digit >>= λ d. hex_number (v * 16 + d) text)
loop_step v c text none room small more = refl
loop_step v c text (some d) room small more =
    let (next, low) = room_next v d c text room (small d refl) in
    ap (build_id_loop text) (shift_in_sum v d low (small d refl)) ∙ more (v * 16 + d) next

build_id_loop_lem :
    (text : List ℕ) (v : ℕ) → HasRoom v text → build_id_loop text v ≡ hex_number v text
unfolding build_id_loop
build_id_loop_lem [] v room = refl
build_id_loop_lem (c ∷ text) v room =
    loop_step v c text (hex_value c) room (hex_value-lt c) (build_id_loop_lem text)
    ∙ ap (λ digit. digit >>= λ d. hex_number (v * 16 + d) text) (hex_value-find_digit c)

room_eight : (n : ℕ) → n ≡ 8 → (0 + 1) * 16 ^ n ≤ 2 ^ 32
room_eight n h = rw h (omega arith)

result_of_number :
    (value : Option ℕ) → build_id_result value ≡ (value >>= λ n. if n == 0 then none else some n)
unfolding build_id_result
result_of_number none = refl
result_of_number (some n) = refl

result_lem :
    (digits : List ℕ)
    → length digits ≡ 8
    → build_id_result (build_id_loop digits 0) ≡ nonzero_number digits
result_lem digits eight =
    ap build_id_result (build_id_loop_lem digits 0 (room_eight (length digits) eight))
    ∙ result_of_number (hex_number 0 digits)

-- What the test for a prefix says of the text.
has_0x-Writes :
    (text : List ℕ) → has_0x text ≡ true → Writes text (drop 2 text) × (length (drop 2 text) ≡ 8)
has_0x-Writes [] h = absurd (ground arith)
has_0x-Writes (a ∷ []) h = absurd (ground arith)
has_0x-Writes (a ∷ b ∷ digits) h =
    let zero_first : a ≡ b'0' = ground arith in
    let eight : length digits ≡ 8 = ground arith in
    elim (Bool-cases (b == b'x')) [
      | inl lower ↦
          let e : b ≡ b'x' = ground arith in (lower_x (rw (zero_first, e) refl) eight, eight)
      | inr other ↦
          let e : b ≡ b'X' = ground arith in (upper_x (rw (zero_first, e) refl) eight, eight)
    ]

not-Writes :
    (text digits : List ℕ) → has_0x text ≡ false → (length text == 8) ≡ false → ¬ Writes text digits
not-Writes text digits no_prefix other (plain e eight) = absurd (ground arith)
not-Writes text digits no_prefix other (lower_x e eight) =
    absurd (ground (arith, subst (λ t. has_0x t ≡ false) e no_prefix))
not-Writes text digits no_prefix other (upper_x e eight) =
    absurd (ground (arith, subst (λ t. has_0x t ≡ false) e no_prefix))

-- A text that is eight characters long, or ten with "0x" or "0X" before eight, is parsed to the number
-- that these eight write in hexadecimal digits, without wrapping; it is refused if one of them is no
-- digit or the number is zero. Each other text is refused.
pub parse_build_id_lem :
    (text : List ℕ)
    → ((digits : List ℕ) × Writes text digits × (parse_build_id text ≡ nonzero_number digits))
      ⊎ ((digits : List ℕ) → ¬ Writes text digits) × (parse_build_id text ≡ none)
unfolding parse_build_id
parse_build_id_lem text = elim (Bool-cases (has_0x text)) [
  | inl prefixed ↦
      let (writes, eight) = has_0x-Writes text prefixed in
      inl (drop 2 text, writes, rw prefixed (result_lem (drop 2 text) eight))
  | inr no_prefix ↦ elim (Bool-cases (length text == 8)) [
    | inl eight ↦
        let e : length text ≡ 8 = ground arith in
        inl (text, plain refl e, rw (no_prefix, eight) (result_lem text e))
    | inr other ↦ inr (λ digits. not-Writes text digits no_prefix other, rw (no_prefix, other) refl)
  ]
]
