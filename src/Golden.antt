-- ===== src/Golden.antt =====
-- ztex_golden_dedup.h and sha3_nonce_zero.h: the hits of a readback, each taken once, and the nonce 0
-- that the host checks itself. The hash function and the target test are parameters. An array is the list
-- of its words, and pointers are non-null.
pub mod Readback
pub mod NonceZero
mod Runs
use suprminer_fpga.Prelude.{
  ℕ, ◌-◌, Bool, true, false, not, ◌&&◌, ◌||◌, ltb, leb, ◌==◌, if◌then◌else◌, List, [], ◌∷◌, get_or,
  set, take,
}

-- `ztex_golden_checkpoint`, and the two variables that it saves.
pub record Checkpoint : Type 0 where
  pub last1 : ℕ
  pub last2 : ℕ

unfoldable pub checkpoint_capture : ℕ → ℕ → Checkpoint
checkpoint_capture last1 last2 = record { last1 = last1; last2 = last2 }

-- The values of both variables afterwards.
unfoldable pub checkpoint_restore : Checkpoint → ℕ × ℕ
checkpoint_restore c = (c.last1, c.last2)

-- The candidate, or 0, and the variables afterwards.
unfoldable pub golden_consume : Bool → ℕ → List ℕ → Checkpoint → ℕ × Checkpoint
golden_consume sha3t pass golden c =
    let slot = if sha3t then 1 - pass else pass in
    let candidate = get_or golden slot 0 in
    if leb 2 pass
    then (0, c)
    else if candidate == 0 || candidate == c.last1 || candidate == c.last2
    then (0, c)
    else (candidate, record { last1 = candidate; last2 = c.last1 })

abbrev pub header_words : ℕ
header_words = 20

abbrev pub target_words : ℕ
target_words = 8

abbrev pub nonce_word : ℕ
nonce_word = 19

pub record Key : Type 0 where
  pub valid : Bool
  pub header : List ℕ
  pub target : List ℕ

-- `memcmp(...) == 0`.
abbrev pub words_equal : List ℕ → List ℕ → Bool
words_equal [] [] = true
words_equal (x ∷ xs) (y ∷ ys) = x == y && words_equal xs ys
words_equal [] (y ∷ ys) = false
words_equal (x ∷ xs) [] = false

-- The header with the nonce word 0.
unfoldable pub normalized : List ℕ → List ℕ
normalized data_words = set (take header_words data_words) nonce_word 0

unfoldable pub key_matches : Key → List ℕ → List ℕ → Bool
key_matches key data_words target =
    key.valid
    && words_equal key.header (normalized data_words)
    && words_equal key.target (take target_words target)

unfoldable pub key_store : List ℕ → List ℕ → Key
key_store data_words target = record {
  valid = true;
  header = normalized data_words;
  target = take target_words target;
}

-- The answer, and the hash that is written.
unfoldable pub nonce_zero_check :
    (List ℕ → List ℕ) → (List ℕ → List ℕ → Bool) → List ℕ → List ℕ → Bool × List ℕ
nonce_zero_check hash_fn fulltest_fn data_words target =
    let hash = hash_fn (normalized data_words) in (fulltest_fn hash target, hash)
