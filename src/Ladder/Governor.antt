-- ===== src/Ladder/Governor.antt =====
-- The governor over a run of windows.
use suprminer_fpga.Prelude.{
  ℕ, zero, suc, ◌≤◌, ◌<◌, ◌≡◌, ◌≢◌, ◌⊎◌, inl, inr, Bool-cases, true, false, not, ◌||◌, ltb, ◌==◌,
  List, [], ◌∷◌, arith, subst,
}
use suprminer_fpga.Ladder.{
  Window, probe_up, window_decide, min_window_checks, clean_windows_for_probe,
}

-- The counter after the windows of one image, newest first; it starts at zero.
unfoldable pub clean_windows : List Window → ℕ
clean_windows [] = 0
clean_windows (w ∷ ws) = (window_decide w (clean_windows ws)).1

-- A window that counts towards a probe.
pub record IsClean (w : Window) : Type 0 where
  pub no_errors : w.errors ≡ 0
  pub sampled : min_window_checks ≤ w.checks
  pub available : w.faster_available ≡ true
  pub untainted : w.faster_tainted ≡ false

-- The newest `n` windows are there and clean.
abbrev pub Clean : ℕ → List Window → Type 0
Clean zero ws = Unit {0}
Clean (suc n) [] = ⊥
Clean (suc n) (w ∷ ws) = IsClean w × Clean n ws

-- An error, a short window or a missing faster image sets the counter back; any other window is
-- clean and either counts or, at the fifth, allows the probe.
counter_cases :
    (w : Window) (c : ℕ)
    → c < clean_windows_for_probe
    → ((window_decide w c).1 ≡ 0) × ((window_decide w c).0 ≢ probe_up)
      ⊎ IsClean w × ((window_decide w c).1 ≡ 0) × (c ≡ 4)
      ⊎ IsClean w × ((window_decide w c).1 ≡ suc c) × ((window_decide w c).0 ≢ probe_up) × (c < 4)
unfolding window_decide
counter_cases w c h = elim (Bool-cases (ltb 0 w.errors)) [
  | inl e ↦ inl (ground arith)
  | inr e ↦ elim (Bool-cases (ltb w.checks min_window_checks)) [
    | inl k ↦ inl (ground arith)
    | inr k ↦ elim (Bool-cases (not w.faster_available || w.faster_tainted)) [
      | inl t ↦ inl (ground arith)
      | inr t ↦
          let clean : IsClean w = record {
            no_errors = ground arith;
            sampled = ground arith;
            available = ground arith;
            untainted = ground arith;
          } in
          elim (Bool-cases (c == 4)) [
            | inl last ↦ inr (inl (clean, ground arith, ground arith))
            | inr more ↦ inr (inr (clean, ground arith, ground arith, ground arith))
          ]
    ]
  ]
]

-- The counter stays below five and counts the newest windows, all of them clean.
clean_windows_counted :
    (ws : List Window) → (clean_windows ws < clean_windows_for_probe) × Clean (clean_windows ws) ws
unfolding clean_windows
clean_windows_counted [] = (omega arith, tt)
clean_windows_counted (w ∷ ws) =
    let (lt, clean) = clean_windows_counted ws in
    elim (counter_cases w (clean_windows ws) lt) [
      | inl (z, _) ↦ rw z (omega arith, tt)
      | inr (inl (_, z, _)) ↦ rw z (omega arith, tt)
      | inr (inr (c, n, _, h)) ↦ rw n (omega arith, (c, clean))
    ]

-- The governor probes a faster image only when the newest five windows are each free of errors, hold
-- enough checks, and found a faster image that is there and untainted; the counter is then back at
-- zero.
pub probe_up_earned :
    (w : Window) (ws : List Window)
    → (window_decide w (clean_windows ws)).0 ≡ probe_up
    → Clean clean_windows_for_probe (w ∷ ws) × (clean_windows (w ∷ ws) ≡ 0)
unfolding clean_windows
probe_up_earned w ws h =
    let (lt, clean) = clean_windows_counted ws in
    elim (counter_cases w (clean_windows ws) lt) [
      | inl (_, never) ↦ absurd (never h)
      | inr (inl (c, z, four)) ↦ ((c, subst (λ n. Clean n ws) four clean), z)
      | inr (inr (_, _, never, _)) ↦ absurd (never h)
    ]
