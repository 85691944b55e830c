-- ===== src/Golden/Readback.antt =====
-- Histories of a SHA3T device, which shows its two newest hits: what the readbacks take.
use suprminer_fpga.Prelude.{
  ℕ, ◌≤◌, ◌≡◌, ◌≢◌, refl, ap, ◌∙◌, true, false, ◌||◌, ◌==◌, if◌then◌else◌, List, [], ◌∷◌, ◌++◌,
  length, All, arith,
}
use suprminer_fpga.Golden.{Checkpoint, golden_consume}

-- Both passes over a readback with the newest hit in slot 0: the candidates, and the variables afterwards.
abbrev read_both : ℕ → ℕ → Checkpoint → ℕ × ℕ × Checkpoint
read_both newest before c =
    let first = golden_consume true 0 (newest ∷ before ∷ []) c in
    let second = golden_consume true 1 (newest ∷ before ∷ []) first.1 in
    (first.0, second.0, second.1)

abbrev pub seen : ℕ → ℕ → Checkpoint
seen newest before = record { last1 = newest; last2 = before }

-- The two newest hits of the device, after more hits have come.
abbrev pub arrive : List ℕ → ℕ → ℕ → ℕ × ℕ
arrive [] newest before = (newest, before)
arrive (hit ∷ hits) newest before = arrive hits hit newest

abbrev pub taken : ℕ → List ℕ → List ℕ
taken candidate more = if candidate == 0 then more else candidate ∷ more

-- What one readback gave, and then what the later ones give behind its variables.
abbrev pub after_round :
    ℕ × ℕ × Checkpoint → (Checkpoint → List ℕ × Checkpoint) → List ℕ × Checkpoint
after_round (first, second, c) later = (taken first (taken second (later c).0), (later c).1)

-- In each round the device finds some hits, and then both slots are read. The candidates that were taken,
-- in order, and the variables at the end.
abbrev pub run : List (List ℕ) → ℕ → ℕ → Checkpoint → List ℕ × Checkpoint
run [] newest before c = ([], c)
run (hits ∷ rounds) newest before c =
    let shown = arrive hits newest before in
    after_round (read_both shown.0 shown.1 c) (run rounds shown.0 shown.1)

abbrev pub all_hits : List (List ℕ) → List ℕ
all_hits [] = []
all_hits (hits ∷ rounds) = hits ++ all_hits rounds

-- Each hit is nonzero and different from the two hits before it.
abbrev pub Fresh : List ℕ → ℕ → ℕ → Type 0
Fresh [] newest before = Unit {0}
Fresh (hit ∷ hits) newest before =
    (hit ≢ 0) × (hit ≢ newest) × (hit ≢ before) × Fresh hits hit newest

read_none : (a b : ℕ) → read_both a b (seen a b) ≡ (0, 0, seen a b)
unfolding golden_consume
read_none a b =
    let b_old : (b == 0 || b == a || b == b) ≡ true = ground arith in
    let a_old : (a == 0 || a == a || a == b) ≡ true = ground arith in rw (b_old, a_old) refl

read_one : (a b c : ℕ) → c ≢ 0 → c ≢ a → c ≢ b → read_both c a (seen a b) ≡ (0, c, seen c a)
unfolding golden_consume
read_one a b c c0 ca cb =
    let a_old : (a == 0 || a == a || a == b) ≡ true = ground arith in
    let c_new : (c == 0 || c == a || c == b) ≡ false = ground arith in rw (a_old, c_new) refl

read_two :
    (a b c d : ℕ)
    → c ≢ 0
    → c ≢ a
    → c ≢ b
    → d ≢ 0
    → d ≢ c
    → d ≢ a
    → read_both d c (seen a b) ≡ (c, d, seen d c)
unfolding golden_consume
read_two a b c d c0 ca cb d0 dc da =
    let c_new : (c == 0 || c == a || c == b) ≡ false = ground arith in
    let d_new : (d == 0 || d == c || d == a) ≡ false = ground arith in rw (c_new, d_new) refl

taken_hit : (c : ℕ) (more : List ℕ) → c ≢ 0 → taken c more ≡ c ∷ more
taken_hit c more h = let fresh : (c == 0) ≡ false = ground arith in rw fresh refl

-- In every history of a SHA3T device, whose slots show its two newest hits, newest first, and whose two
-- newest hits at the start are those in the variables (0 for none): if at most two hits come in each round, and
-- each hit is nonzero and different from the two before it, then the candidates taken in all rounds are
-- all hits in the order in which they came, each once, and the variables hold the two newest hits.
pub run-all_hits :
    (rounds : List (List ℕ)) (newest before : ℕ)
    → All (λ hits. length hits ≤ 2) rounds
    → Fresh (all_hits rounds) newest before
    → run rounds newest before (seen newest before)
      ≡ (all_hits rounds, let last = arrive (all_hits rounds) newest before in seen last.0 last.1)
run-all_hits [] a b few fresh = refl
run-all_hits ([] ∷ rounds) a b (le, few) fresh =
    ap (λ r. after_round r (run rounds a b)) (read_none a b) ∙ run-all_hits rounds a b few fresh
run-all_hits ((c ∷ []) ∷ rounds) a b (le, few) (c0, ca, cb, fresh) =
    let rest = run rounds c a (seen c a) in
    ap (λ r. after_round r (run rounds c a)) (read_one a b c c0 ca cb)
    ∙ ap (λ l. (l, rest.1)) (taken_hit c rest.0 c0)
    ∙ ap (λ r. (c ∷ r.0, r.1)) (run-all_hits rounds c a few fresh)
run-all_hits ((c ∷ d ∷ []) ∷ rounds) a b (le, few) (c0, ca, cb, (d0, dc, da, fresh)) =
    let rest = run rounds d c (seen d c) in
    ap (λ r. after_round r (run rounds d c)) (read_two a b c d c0 ca cb d0 dc da)
    ∙ ap (λ l. (taken c l, rest.1)) (taken_hit d rest.0 d0)
    ∙ ap (λ l. (l, rest.1)) (taken_hit c (d ∷ rest.0) c0)
    ∙ ap (λ r. (c ∷ d ∷ r.0, r.1)) (run-all_hits rounds d c few fresh)
run-all_hits ((c ∷ d ∷ e ∷ hits) ∷ rounds) a b (le, few) fresh = absurd (ground arith)
