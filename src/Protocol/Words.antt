-- ===== src/Protocol/Words.antt =====
-- Little-endian words and buffers: reading back what was stored.
use suprminer_fpga.Prelude.{
  ℕ, zero, suc, ◌+◌, ◌*◌, ◌/◌, ◌%◌, ◌^◌, ◌<◌, ◌≡◌, refl, ap, ◌∙◌, List, [], ◌∷◌, ◌++◌, length, take,
  arith,
}
use suprminer_fpga.Prelude.Bits.{bit_or-disjoint}
use suprminer_fpga.Protocol.{join_le32, put_le32, overlay, write_at, seal, crc32c}

join_le32_sum :
    (b0 b1 b2 b3 : ℕ)
    → b0 < 256
    → b1 < 256
    → b2 < 256
    → join_le32 b0 b1 b2 b3 ≡ b0 + b1 * 2 ^ 8 + b2 * 2 ^ 16 + b3 * 2 ^ 24
unfolding join_le32
join_le32_sum b0 b1 b2 b3 h0 h1 h2 = rw (bit_or-disjoint 8 b0 b1 h0) (
    rw (bit_or-disjoint 16 (b0 + b1 * 2 ^ 8) b2 (omega arith))
      (bit_or-disjoint 24 (b0 + b1 * 2 ^ 8 + b2 * 2 ^ 16) b3 (omega arith)))

-- A 32-bit word is read back from its four bytes.
pub join_le32-put :
    (v : ℕ)
    → v < 2 ^ 32
    → join_le32 (v % 256) (v / 2 ^ 8 % 256) (v / 2 ^ 16 % 256) (v / 2 ^ 24 % 256) ≡ v
join_le32-put v h =
    join_le32_sum (v % 256) (v / 2 ^ 8 % 256) (v / 2 ^ 16 % 256) (v / 2 ^ 24 % 256) (omega arith)
      (omega arith) (omega arith)
    ∙ omega arith

pub crc32c-lt : (bytes : List ℕ) → crc32c bytes < 2 ^ 32
unfolding crc32c
crc32c-lt bytes = omega arith

-- A write behind a prefix of known length leaves the prefix.
pub write_at-append :
    (n : ℕ) (bs front back : List ℕ)
    → length front ≡ n
    → write_at n bs (front ++ back) ≡ front ++ overlay bs back
unfolding write_at
write_at-append zero bs [] back h = refl
write_at-append zero bs (x ∷ xs) back h = absurd (omega arith)
write_at-append (suc n) bs [] back h = absurd (omega arith)
write_at-append (suc n) bs (x ∷ xs) back h = ap (◌∷◌ x) (write_at-append n bs xs back (omega arith))

pub overlay-append :
    (bs old back : List ℕ) → length bs ≡ length old → overlay bs (old ++ back) ≡ bs ++ back
unfolding overlay
overlay-append [] [] back h = refl
overlay-append [] (x ∷ old) back h = absurd (omega arith)
overlay-append (b ∷ bs) [] back h = absurd (omega arith)
overlay-append (b ∷ bs) (x ∷ old) back h = ap (◌∷◌ b) (overlay-append bs old back (omega arith))

pub take-append : (n : ℕ) (front back : List ℕ) → length front ≡ n → take n (front ++ back) ≡ front
take-append zero [] back h = refl
take-append zero (x ∷ xs) back h = absurd (omega arith)
take-append (suc n) [] back h = absurd (omega arith)
take-append (suc n) (x ∷ xs) back h = ap (◌∷◌ x) (take-append n xs back (omega arith))

-- Sealing a frame of a body and four spare bytes appends the body's CRC.
pub seal-append :
    (n : ℕ) (body : List ℕ) (x0 x1 x2 x3 : ℕ)
    → length body ≡ n
    → seal n (body ++ (x0 ∷ x1 ∷ x2 ∷ x3 ∷ [])) ≡ body ++ put_le32 (crc32c body)
unfolding seal
seal-append n body x0 x1 x2 x3 h =
    rw (take-append n body (x0 ∷ x1 ∷ x2 ∷ x3 ∷ []) h)
      (write_at-append n (put_le32 (crc32c body)) body (x0 ∷ x1 ∷ x2 ∷ x3 ∷ []) h)
