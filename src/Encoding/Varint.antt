-- ===== src/Encoding/Varint.antt =====
-- The variable-length numbers of util.c, against a reader of the format.
use suprminer_fpga.Prelude.{
  ℕ, zero, suc, ◌+◌, ◌*◌, ◌^◌, ◌<◌, ◌≤◌, ◌≡◌, refl, ap, ltb, leb, ◌==◌, if◌then◌else◌, List, [],
  ◌∷◌, ◌++◌, Option, none, some, length, arith, Bool-cases, inl, inr,
}
use suprminer_fpga.Encoding.{store_bytes, varint_encode}

-- The number in the first `k` bytes, the lowest first, and what follows them.
abbrev pub read_bytes : ℕ → List ℕ → Option (ℕ × List ℕ)
read_bytes zero text = some (0, text)
read_bytes (suc k) [] = none
read_bytes (suc k) (byte ∷ text) = elim (read_bytes k text) [
  | none ↦ none
  | some r ↦ some (byte + r.0 * 2 ^ 8, r.1)
]

-- A reader of the format: the first byte is the number, or says how many bytes it has.
abbrev pub varint_decode : List ℕ → Option (ℕ × List ℕ)
varint_decode [] = none
varint_decode (head ∷ text) =
    if ltb head 0xfd
    then some (head, text)
    else if head == 0xfd
    then read_bytes 2 text
    else if head == 0xfe
    then read_bytes 4 text
    else read_bytes 8 text

-- The fewest bytes that the format has for a number.
abbrev pub varint_size : ℕ → ℕ
varint_size n =
    if ltb n 253 then 1 else if ltb n (2 ^ 16) then 3 else if ltb n (2 ^ 32) then 5 else 9

-- A number below 2^64 is read back from its encoding, whatever follows it, and the encoding has the
-- fewest bytes that the format has for the number.
pub varint_decode-varint_encode :
    (n : ℕ) (rest : List ℕ)
    → n < 2 ^ 64
    → (varint_decode (varint_encode n ++ rest) ≡ some (n, rest))
      × (length (varint_encode n) ≡ varint_size n)
unfolding varint_encode store_bytes
varint_decode-varint_encode n rest h = elim (Bool-cases (ltb n 0xfd)) [
  | inl one ↦ rw one (rw one refl, refl)
  | inr a ↦ elim (Bool-cases (leb n 0xffff)) [
    | inl three ↦
        let le : n ≤ 0xffff = ground arith in
        rw (a, three) (ap (λ v. some (v, rest)) (omega arith), ground arith)
    | inr b ↦ elim (Bool-cases (leb n 0xffffffff)) [
      | inl five ↦
          let le : n ≤ 0xffffffff = ground arith in
          rw (a, b, five) (ap (λ v. some (v, rest)) (omega arith), ground arith)
      | inr c ↦ rw (a, b, c) (ap (λ v. some (v, rest)) (omega arith), ground arith)
    ]
  ]
]
