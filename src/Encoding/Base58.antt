-- ===== src/Encoding/Base58.antt =====
-- The base-58 decoder of util.c, as numbers.
use suprminer_fpga.Prelude.{
  ℕ, zero, suc, ◌+◌, ◌*◌, ◌/◌, ◌%◌, ◌^◌, ◌<◌, ◌≤◌, ◌≡◌, ◌≢◌, subst, refl, ap, sym, ◌∙◌, false, ◌==◌,
  List, [], ◌∷◌, Option, none, some, length, ◌>>=◌, arith, ◌⊎◌, inl, inr, All,
}
use native.Mathlib.Nat.{
  pow-zero, pow-succ', mul-le-mul_right, div-add-mod, mod-lt, mul-pos, pow-le-pow_right,
}
use suprminer_fpga.Encoding.{
  b58digits, b58_search, b58_multiply, masked, b58_keep, b58_round, b58_loop,
}

abbrev pub IsWord : ℕ → Type 0
IsWord w = w < 2 ^ 32

-- The number that a text writes in base 58; `none` for a character that is no digit.
abbrev pub text_value : ℕ → List ℕ → Option ℕ
text_value n [] = some n
text_value n (char ∷ text) = b58_search b58digits 0 char >>= λ c. text_value (n * 58 + c) text

-- The number in a list of words, the highest first.
abbrev pub words_value : List ℕ → ℕ
words_value [] = 0
words_value (w ∷ words) = w * (2 ^ 32) ^ length words + words_value words

multiply-value :
    (words : List ℕ) (c : ℕ)
    → All IsWord words
    → c < 2 ^ 32
    → let r = b58_multiply words c in
      (length r.0 ≡ length words)
      × All IsWord r.0
      × (r.1 < 2 ^ 32)
      × (words_value r.0 + r.1 * (2 ^ 32) ^ length words ≡ words_value words * 58 + c)
unfolding b58_multiply
multiply-value [] c ws h = (refl, tt, h, omega arith)
multiply-value (w ∷ words) c (lt, ws) h =
    let r = b58_multiply words c in
    let (len, all, small, value) = multiply-value words c ws h in
    let t : ℕ = w * 58 + r.1 in
    let p : ℕ = (2 ^ 32) ^ length words in
    let split : (t / 2 ^ 32 * 2 ^ 32 + t % 2 ^ 32) * p ≡ t * p = ap (λ x. x * p) (omega arith) in
    let up = pow-succ' (2 ^ 32) (length words) in
    (ap suc len, (omega arith, all), omega arith, rw (up, len) (omega (arith, split, value)))

words_value-lt : (words : List ℕ) → All IsWord words → words_value words < (2 ^ 32) ^ length words
words_value-lt [] h = omega arith
words_value-lt (w ∷ words) (lt, h) =
    let p : ℕ = (2 ^ 32) ^ length words in
    let le : (w + 1) * p ≤ 2 ^ 32 * p = mul-le-mul_right p (omega arith) in
    rw (pow-succ' (2 ^ 32) (length words)) (omega (arith, le, words_value-lt words h))

-- The words between two rounds: one more than `k`, with a number below the capacity.
pub record Fits (rem k : ℕ) (words : List ℕ) : Type 0 where
  pub count : length words ≡ suc k
  pub words_small : All IsWord words
  pub small : words_value words < 2 ^ (8 * rem) * (2 ^ 32) ^ k

pub pow_pos : (b k : ℕ) → 0 < b → 0 < b ^ k
pow_pos b zero h = rw (pow-zero b) (omega arith)
pow_pos b (suc k) h = rw (pow-succ' b k) (mul-pos h (pow_pos b k h))

zero_cases : (n : ℕ) → (n ≡ 0) ⊎ (n ≢ 0)
zero_cases n = ground arith

==_false : (n : ℕ) → n ≢ 0 → (n == 0) ≡ false
==_false n h = ground arith

nat_cases : (n : ℕ) → (n ≡ 0) ⊎ (1 ≤ n)
nat_cases zero = inl refl
nat_cases (suc n) = inr (omega arith)

masked_small : (rem w : ℕ) → masked rem w ≡ 0 → w < 2 ^ (8 * rem)
unfolding masked
masked_small rem w h =
    let m : ℕ = 2 ^ (8 * rem) in
    let whole : m * (w / m) + w % m ≡ w = div-add-mod w m in
    omega (arith, h, whole, mod-lt w (pow_pos 2 (8 * rem) (omega arith)))

masked_large : (rem w : ℕ) → masked rem w ≢ 0 → 2 ^ (8 * rem) ≤ w
unfolding masked
masked_large rem w h =
    let m : ℕ = 2 ^ (8 * rem) in
    let whole : m * (w / m) + w % m ≡ w = div-add-mod w m in
    elim (nat_cases (w / m)) [
      | inl none_of ↦ absurd (h (rw none_of (omega arith)))
      | inr some_of ↦
          let le : 1 * m ≤ w / m * m = mul-le-mul_right m some_of in omega (arith, whole, le)
    ]

-- The bound on the first word is a bound on the number.
pub head_decides :
    (rem k w : ℕ) (words : List ℕ)
    → length words ≡ k
    → All IsWord words
    → (w < 2 ^ (8 * rem) → words_value (w ∷ words) < 2 ^ (8 * rem) * (2 ^ 32) ^ k)
      × (2 ^ (8 * rem) ≤ w → 2 ^ (8 * rem) * (2 ^ 32) ^ k ≤ words_value (w ∷ words))
head_decides rem k w words len h =
    let p : ℕ = (2 ^ 32) ^ k in
    let m : ℕ = 2 ^ (8 * rem) in
    let below : words_value words < p =
      subst (λ n. words_value words < (2 ^ 32) ^ n) len (words_value-lt words h) in
    rw len (
      λ lt.
          let le : (w + 1) * p ≤ m * p = mul-le-mul_right p (omega arith) in
          omega (arith, le, below),
      λ ge. let le : m * p ≤ w * p = mul-le-mul_right p ge in omega (arith, le),
    )

-- What a step gives that should make the number `v`: the words of it, unless it is over the capacity.
abbrev Makes : ℕ → ℕ → ℕ → Option (List ℕ) → Type 0
Makes rem k v result =
    ((next : List ℕ) × (result ≡ some next) × Fits rem k next × (words_value next ≡ v))
    ⊎ (result ≡ none) × (2 ^ (8 * rem) * (2 ^ 32) ^ k ≤ v)

keep-Makes :
    (rem k : ℕ) (words : List ℕ) (c v : ℕ)
    → rem < 4
    → length words ≡ suc k
    → All IsWord words
    → words_value words + c * (2 ^ 32) ^ suc k ≡ v
    → Makes rem k v (b58_keep rem words c)
unfolding b58_keep
keep-Makes rem k [] c v three len h e = absurd (omega (arith, len))
keep-Makes rem k (w ∷ words) zero v three len (lt, h) e =
    let (below, above) = head_decides rem k w words (omega (arith, len)) h in
    elim (zero_cases (masked rem w)) [
      | inl z ↦ rw z (
          inl (
            w ∷ words,
            refl,
            record { count = len; words_small = (lt, h); small = below (masked_small rem w z) },
            omega (arith, e),
          ))
      | inr nz ↦
          rw (==_false (masked rem w) nz)
            (inr (refl, omega (arith, e, above (masked_large rem w nz))))
    ]
keep-Makes rem k (w ∷ words) (suc c) v three len h e =
    let p : ℕ = (2 ^ 32) ^ k in
    let room : 2 ^ (8 * rem) * p ≤ 2 ^ 32 * p =
      mul-le-mul_right p
        (pow-le-pow_right {n = 2} (omega arith) {i = 8 * rem} {j = 32} (omega arith)) in
    let over : 1 * (2 ^ 32) ^ suc k ≤ suc c * (2 ^ 32) ^ suc k =
      mul-le-mul_right ((2 ^ 32) ^ suc k) (omega arith) in
    rw (==_false (suc c) (omega arith))
      (inr (refl, omega (arith, e, room, over, pow-succ' (2 ^ 32) k)))

round-Makes :
    (rem k : ℕ) (words : List ℕ) (c : ℕ)
    → rem < 4
    → Fits rem k words
    → c < 58
    → Makes rem k (words_value words * 58 + c) (b58_round rem words (some c))
unfolding b58_round
round-Makes rem k words c three fits h =
    let r = b58_multiply words c in
    let (len, all, small, value) = multiply-value words c fits.words_small (omega arith) in
    keep-Makes rem k r.0 r.1 (words_value words * 58 + c) three (len ∙ fits.count) all (
      subst (λ n. words_value r.0 + r.1 * (2 ^ 32) ^ n ≡ words_value words * 58 + c) fits.count
        value)

search-lt :
    (digits : List ℕ) (c char found : ℕ)
    → b58_search digits c char ≡ some found
    → found < c + length digits
unfolding b58_search
search-lt [] c char found h = absurd (ground arith)
search-lt (d ∷ digits) c char found h = ground (arith, search-lt digits (c + 1) char found)

bind-le :
    (found : Option ℕ) (f : ℕ → Option ℕ) (n v : ℕ)
    → ((c : ℕ) → f c ≡ some v → n ≤ v)
    → (found >>= f) ≡ some v
    → n ≤ v
bind-le none f n v h e = absurd (ground arith)
bind-le (some c) f n v h e = h c e

-- More digits make no smaller number.
text_value-le : (text : List ℕ) (n v : ℕ) → text_value n text ≡ some v → n ≤ v
text_value-le [] n v h = ground arith
text_value-le (char ∷ text) n v h =
    bind-le (b58_search b58digits 0 char) (λ c. text_value (n * 58 + c) text) n v
      (λ c e. omega (arith, text_value-le text (n * 58 + c) v e)) h

-- What the loop gives for a text with the value `value`.
abbrev pub Reads : ℕ → ℕ → Option ℕ → Option (List ℕ) → Type 0
Reads rem k value result =
    ((final : List ℕ) × (result ≡ some final)
      × Fits rem k final
      × (value ≡ some (words_value final)))
    ⊎ (result ≡ none) × ((v : ℕ) → value ≡ some v → 2 ^ (8 * rem) * (2 ^ 32) ^ k ≤ v)

step-Reads :
    (rem k : ℕ) (words text : List ℕ) (found : Option ℕ)
    → rem < 4
    → Fits rem k words
    → ((c : ℕ) → found ≡ some c → c < 58)
    → ((next : List ℕ)
        → Fits rem k next
        → Reads rem k (text_value (words_value next) text) (b58_loop rem next text))
    → Reads rem k
        (found >>= λ c. text_value (words_value words * 58 + c) text)
        (b58_round rem words found >>= λ next. b58_loop rem next text)
unfolding b58_round
step-Reads rem k words text none three fits small more = inr (refl, λ v e. absurd (ground arith))
step-Reads rem k words text (some c) three fits small more =
    elim (round-Makes rem k words c three fits (small c refl)) [
      | inl (next, made, fits_next, value) ↦ rw (made, sym value) (more next fits_next)
      | inr (stopped, over) ↦ rw stopped (
          inr
            (refl, λ v e. omega (arith, over, text_value-le text (words_value words * 58 + c) v e)))
    ]

pub loop-Reads :
    (rem k : ℕ) (words text : List ℕ)
    → rem < 4
    → Fits rem k words
    → Reads rem k (text_value (words_value words) text) (b58_loop rem words text)
unfolding b58_loop
loop-Reads rem k words [] three fits = inl (words, refl, fits, refl)
loop-Reads rem k words (char ∷ text) three fits =
    step-Reads rem k words text (b58_search b58digits 0 char) three fits
      (search-lt b58digits 0 char) (λ next fits_next. loop-Reads rem k next text three fits_next)
