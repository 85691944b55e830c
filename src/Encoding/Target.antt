-- ===== src/Encoding/Target.antt =====
-- The test of a hash against the target, as numbers of 256 bits.
use suprminer_fpga.Prelude.{
  ℕ, zero, suc, ◌+◌, ◌*◌, ◌^◌, ◌<◌, ◌≤◌, ◌≡◌, refl, ltb, leb, List, length, get_or, arith,
  Bool-cases, inl, inr, All, All-get_or,
}
use native.Mathlib.Nat.{pow-succ', mul-le-mul_right}
use suprminer_fpga.Encoding.{fulltest_loop, fulltest}

abbrev pub IsWord : ℕ → Type 0
IsWord w = w < 2 ^ 32

-- The number in the first `n` words, the lowest first.
pub words_value : ℕ → List ℕ → ℕ
words_value zero words = 0
words_value (suc n) words = words_value n words + get_or words n 0 * (2 ^ 32) ^ n

words_value-lt : (n : ℕ) (words : List ℕ) → All IsWord words → words_value n words < (2 ^ 32) ^ n
unfolding words_value
words_value-lt zero words h = omega arith
words_value-lt (suc n) words h =
    let w : get_or words n 0 < 2 ^ 32 = All-get_or IsWord words n 0 h (omega arith) in
    let p : (2 ^ 32) ^ suc n ≡ 2 ^ 32 * (2 ^ 32) ^ n = pow-succ' (2 ^ 32) n in
    let le : (get_or words n 0 + 1) * (2 ^ 32) ^ n ≤ 2 ^ 32 * (2 ^ 32) ^ n =
      mul-le-mul_right ((2 ^ 32) ^ n) (omega arith) in
    omega (arith, p, le, words_value-lt n words h)

-- Numbers with a lower part below `p` compare by their upper parts first.
upper_decides : (a b c d p : ℕ) → a < p → b < d → a + b * p < c + d * p
upper_decides a b c d p low lt =
    let le : (b + 1) * p ≤ d * p = mul-le-mul_right p (omega arith) in omega (arith, le)

fulltest_loop-leb :
    (n : ℕ) (hash target : List ℕ)
    → All IsWord hash
    → All IsWord target
    → fulltest_loop n hash target ≡ leb (words_value n hash) (words_value n target)
unfolding fulltest_loop words_value
fulltest_loop-leb zero hash target hw tw = refl
fulltest_loop-leb (suc n) hash target hw tw =
    let h = get_or hash n 0 in
    let t = get_or target n 0 in
    let p : ℕ = (2 ^ 32) ^ n in
    let hl = words_value-lt n hash hw in
    let tl = words_value-lt n target tw in
    elim (Bool-cases (ltb t h)) [
      | inl over ↦
          rw over
            (ground (arith, upper_decides (words_value n target) t (words_value n hash) h p tl))
      | inr a ↦ elim (Bool-cases (ltb h t)) [
        | inl under ↦
            rw (a, under)
              (ground (arith, upper_decides (words_value n hash) h (words_value n target) t p hl))
        | inr b ↦
            let same : h ≡ t = ground arith in
            rw (a, b, fulltest_loop-leb n hash target hw tw, same) (ground arith)
      ]
    ]

-- For eight words each: the test is `hash ≤ target` as numbers of 256 bits, the lowest word first.
pub fulltest-leb :
    (hash target : List ℕ)
    → length hash ≡ 8
    → length target ≡ 8
    → All IsWord hash
    → All IsWord target
    → fulltest hash target ≡ leb (words_value 8 hash) (words_value 8 target)
unfolding fulltest
fulltest-leb hash target hl tl hw tw = fulltest_loop-leb 8 hash target hw tw
