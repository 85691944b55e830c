-- ===== src/Golden/Runs.antt =====
-- Runs of the readback and of the key, and concrete cases of their theorems.
use suprminer_fpga.Prelude.{ℕ, ◌≡◌, refl, true, List, [], ◌∷◌, ◌++◌, replicate, arith}
use suprminer_fpga.Golden.{golden_consume, normalized, key_matches, key_store}
use suprminer_fpga.Golden.Readback.{seen, arrive, run, all_hits, run-all_hits}

abbrev header : List ℕ
header = replicate 19 5 ++ (77 ∷ [])

abbrev rolled : List ℕ
rolled = replicate 19 5 ++ (78 ∷ [])

abbrev target : List ℕ
target = replicate 8 9

-- The nonce does not count.
rolled_matches : key_matches (key_store header target) rolled target ≡ true
unfolding key_matches key_store normalized
rolled_matches = refl

-- Two hits, none, then one, on a device that has found nothing before.
abbrev rounds : List (List ℕ)
rounds = (4 ∷ 5 ∷ []) ∷ [] ∷ (6 ∷ []) ∷ []

rounds_taken : run rounds 0 0 (seen 0 0) ≡ (4 ∷ 5 ∷ 6 ∷ [], seen 6 5)
unfolding golden_consume
rounds_taken = refl

run-all_hits_example :
    run rounds 0 0 (seen 0 0)
    ≡ (all_hits rounds, let last = arrive (all_hits rounds) 0 0 in seen last.0 last.1)
run-all_hits_example = run-all_hits rounds 0 0 (omega arith) (omega arith)
