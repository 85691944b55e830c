-- ===== src/Gate/Payload.antt =====
-- The payload of a work: its words, read back from the bytes.
use suprminer_fpga.Prelude.{
  ℕ, zero, suc, ◌+◌, ◌*◌, ◌^◌, ◌<◌, ◌≤◌, ◌≡◌, refl, ap, ◌∙◌, ◌||◌, leb, List, [], ◌∷◌, ◌++◌, none,
  some, length, get_or, take, All, All-get_or, arith, Bool-cases, ◌⊎◌, inl, inr,
}
use suprminer_fpga.Gate.{header_prefix_words, target_high_word, put_be32, pack_words, pack_work}

-- The words in a list of bytes, the highest byte first.
abbrev pub read_words : ℕ → List ℕ → List ℕ
read_words zero bytes = []
read_words (suc n) (a ∷ b ∷ c ∷ d ∷ bytes) =
    (((a * 256 + b) * 256 + c) * 256 + d) ∷ read_words n bytes
read_words (suc n) _ = []

read_words-put :
    (n v : ℕ) (bytes : List ℕ)
    → v < 2 ^ 32
    → read_words (suc n) (put_be32 v ++ bytes) ≡ v ∷ read_words n bytes
read_words-put n v bytes h = ap (λ x. x ∷ read_words n bytes) (omega arith)

read_words-pack :
    (n m : ℕ) (words bytes : List ℕ)
    → All (λ w. w < 2 ^ 32) words
    → n ≤ length words
    → (read_words (n + m) (pack_words n words ++ bytes) ≡ take n words ++ read_words m bytes)
      × (length (pack_words n words ++ bytes) ≡ n * 4 + length bytes)
unfolding pack_words
read_words-pack zero m words bytes h le = (ap (λ k. read_words k bytes) (omega arith), omega arith)
read_words-pack (suc n) m [] bytes h le = absurd (omega arith)
read_words-pack (suc n) m (w ∷ words) bytes (lt, h) le =
    let (more, len) = read_words-pack n m words bytes h (omega arith) in
    let shape : suc n + m ≡ suc (n + m) = omega arith in
    (
      ap (λ k. read_words k (put_be32 w ++ (pack_words n words ++ bytes))) shape
          ∙ read_words-put (n + m) w (pack_words n words ++ bytes) lt
          ∙ ap (◌∷◌ w) more,
      omega (arith, len),
    )

-- For words of 32 bits: with 20 header words and 8 target words or more, the payload has 80 bytes, and the
-- words read back from it are the first 19 of the header and the highest of the target; with fewer words
-- there is no payload.
pub pack_work_lem :
    (header target : List ℕ)
    → All (λ w. w < 2 ^ 32) header
    → All (λ w. w < 2 ^ 32) target
    → ((19 < length header)
        × (7 < length target)
        × ((payload : List ℕ) × (pack_work header target ≡ some payload)
            × (length payload ≡ 80)
            × (read_words 20 payload ≡ take 19 header ++ (get_or target 7 0 ∷ []))))
      ⊎ ((length header ≤ 19 ⊎ length target ≤ 7)) × (pack_work header target ≡ none)
unfolding pack_work
pack_work_lem header target hw tw =
    elim (Bool-cases
      (leb (length header) header_prefix_words || leb (length target) target_high_word)) [
        | inl short ↦ inr (ground arith, rw short refl)
        | inr long ↦
            let enough : 19 < length header = ground arith in
            let high : get_or target 7 0 < 2 ^ 32 =
              All-get_or (λ w. w < 2 ^ 32) target 7 0 tw (omega arith) in
            let (words, len) =
              read_words-pack 19 1 header (put_be32 (get_or target 7 0)) hw (omega arith) in
            inl (
              enough,
              ground arith,
              (
                pack_words 19 header ++ put_be32 (get_or target 7 0),
                rw long refl,
                len,
                words
                    ∙ ap (λ x. take 19 header ++ x) (read_words-put 0 (get_or target 7 0) [] high),
              ),
            )
      ]
