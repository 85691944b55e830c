-- ===== src/Golden/NonceZero.antt =====
-- The key of the last check of nonce 0: which work it stands for.
use suprminer_fpga.Prelude.{
  ℕ, ◌≡◌, ◌↔◌, refl, ap, subst, ◌∙◌, true, List, [], ◌∷◌, take, and_true, and_parts, ==_iff, arith,
}
use suprminer_fpga.Golden.{target_words, words_equal, normalized, key_matches, key_store}

words_equal_self : (xs : List ℕ) → words_equal xs xs ≡ true
words_equal_self [] = refl
words_equal_self (x ∷ xs) = and_true ((==_iff x x).1 refl) (words_equal_self xs)

same_words : (xs ys : List ℕ) → words_equal xs ys ≡ true → xs ≡ ys
same_words [] [] h = refl
same_words [] (y ∷ ys) h = absurd (ground arith)
same_words (x ∷ xs) [] h = absurd (ground arith)
same_words (x ∷ xs) (y ∷ ys) h =
    let (head, tail) = and_parts _ _ h in
    ap (λ z. z ∷ xs) ((==_iff x y).0 head) ∙ ap (◌∷◌ y) (same_words xs ys tail)

-- A stored key matches exactly the work with the same header, but for its nonce word, and the same target.
pub key_matches-key_store :
    (data_words target other other_target : List ℕ)
    → (key_matches (key_store data_words target) other other_target ≡ true) ↔ (
        (normalized data_words ≡ normalized other)
        × (take target_words target ≡ take target_words other_target))
unfolding key_matches key_store
key_matches-key_store data_words target other other_target = (
  λ h.
      let (header, same_target) = and_parts _ _ h in
      (same_words _ _ header, same_words _ _ same_target),
  λ p.
      and_true
        (subst (λ x. words_equal (normalized data_words) x ≡ true) p.0
          (words_equal_self (normalized data_words)))
        (subst (λ x. words_equal (take target_words target) x ≡ true) p.1
          (words_equal_self (take target_words target))),
)
