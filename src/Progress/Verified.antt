-- ===== src/Progress/Verified.antt =====
-- What may be verified, and when a diagnostic counts as new.
use suprminer_fpga.Prelude.{
  ◌+◌, ◌<◌, ◌≡◌, ◌≢◌, ◌⊎◌, ◌↔◌, inl, inr, refl, true, false, not, ◌||◌, ◌==◌, none, some, List, [],
  ◌∷◌, arith, Bool-cases,
}
use suprminer_fpga.Protocol.{Status, has_flag}
use suprminer_fpga.Protocol.Flag
use suprminer_fpga.Progress.{
  ProgressKey, ProgressState, ProgressDisposition, progress_init, status_key, key_from_status,
  classify_key, classify, repeats, mark_verified, allowed_for_rate,
}

candidate_cases :
    (st : Status)
    → (key_from_status st ≡ none)
      ⊎ ((key_from_status st ≡ some (status_key st))
          × (st.progress_generation ≢ 0)
          × (has_flag st.flags Flag.active_valid ≡ true))
unfolding key_from_status
candidate_cases st =
    elim (Bool-cases (
      not (has_flag st.flags Flag.active_valid)
      || st.active_session == 0
      || st.active_epoch == 0
      || st.progress_generation == 0)) [
        | inl bad ↦ inl (rw bad)
        | inr good ↦ inr (rw good, λ z. ground arith, ground arith)
      ]

new_iff_not_repeats :
    (s : ProgressState) (key : ProgressKey)
    → (classify_key s key ≡ ProgressDisposition.fresh) ↔ (repeats s key ≡ false)
unfolding classify_key
new_iff_not_repeats s key = (λ e. ground arith, λ e. ground arith)

-- Classification and marking agree, though the code writes their tests apart: a snapshot is new with
-- a key exactly when that key can be marked as verified from the same snapshot.
pub classify_iff_mark :
    (s : ProgressState) (st : Status) (key : ProgressKey)
    → (classify s st ≡ (ProgressDisposition.fresh, some key)) ↔ ((mark_verified s st key).1 ≡ true)
unfolding classify mark_verified
classify_iff_mark s st key = elim (candidate_cases st) [
  | inl e ↦ (λ h. ground (arith, e), λ h. ground (arith, e))
  | inr (e, gen, flag) ↦ (
    λ h. ground (arith, e, new_iff_not_repeats s (status_key st)),
    λ h. ground (arith, e, new_iff_not_repeats s (status_key st)),
  )
]

-- A snapshot that was verified is classified as the same diagnostic from then on: a baseline may
-- reuse it, and a published sample may not.
pub verified_then_repeated :
    (s : ProgressState) (st : Status) (key : ProgressKey)
    → (mark_verified s st key).1 ≡ true
    → let u = (mark_verified s st key).0 in
      (classify u st ≡ (ProgressDisposition.repeated, some key))
      × (allowed_for_rate (classify u st).0 true ≡ true)
      × (allowed_for_rate (classify u st).0 false ≡ false)
unfolding classify mark_verified allowed_for_rate
verified_then_repeated s st key h = elim (candidate_cases st) [
  | inl e ↦ absurd (ground (arith, e))
  | inr (e, gen, flag) ↦ ground (arith, e)
]

-- The keys that were verified since the last `progress_init`, newest first.
pub data Reach (old : ProgressState) : ProgressState → List ProgressKey → Type 0 where
  starts : Reach old (progress_init old) []
  marks :
      {s u : ProgressState} {ks : List ProgressKey} (st : Status) (key : ProgressKey)
      → Reach old s ks
      → mark_verified s st key ≡ (u, true)
      → Reach old u (key ∷ ks)

-- One work tuple, rising generations, and in each the nonce before the generation.
abbrev pub Rising : List ProgressKey → Type 0
Rising [] = Unit {0}
Rising (k ∷ []) = (k.nonce + 1 ≡ k.generation) × Unit {0}
Rising (k ∷ j ∷ ks) =
    (k.nonce + 1 ≡ k.generation)
    × (k.session ≡ j.session)
    × (k.epoch ≡ j.epoch)
    × (j.generation < k.generation)
    × Rising (j ∷ ks)

abbrev pub Holds : ProgressState → List ProgressKey → Type 0
Holds s [] = s.verified_valid ≡ false
Holds s (k ∷ ks) = (s.verified_valid ≡ true) × (s.verified ≡ k)

mark-Rising :
    (s u : ProgressState) (ks : List ProgressKey) (st : Status) (key : ProgressKey)
    → Holds s ks
    → Rising ks
    → mark_verified s st key ≡ (u, true)
    → Holds u (key ∷ ks) × Rising (key ∷ ks)
unfolding mark_verified
mark-Rising s u ks st key held rising h = elim (candidate_cases st) [
  | inl e ↦ absurd (ground (arith, e))
  | inr (e, gen, flag) ↦ split s u ks st key held rising h e gen
]
  where
    split :
        (s u : ProgressState) (ks : List ProgressKey) (st : Status) (key : ProgressKey)
        → Holds s ks
        → Rising ks
        → mark_verified s st key ≡ (u, true)
        → key_from_status st ≡ some (status_key st)
        → st.progress_generation ≢ 0
        → Holds u (key ∷ ks) × Rising (key ∷ ks)
    split s u [] st key held rising h e gen = ground arith
    split s u (j ∷ ks) st key held rising h e gen = ground arith

-- Since the last start the verified diagnostics belong to one work tuple, with rising generations
-- and, in each, the nonce that the scheduler gives that generation; so no nonce is verified twice.
pub Reach-Rising :
    {old s : ProgressState} {ks : List ProgressKey} → Reach old s ks → Holds s ks × Rising ks
Reach-Rising starts = (unfold progress_init in refl, tt)
Reach-Rising (marks {s} {u} {ks} st key r h) =
    let (held, rising) = Reach-Rising r in mark-Rising s u ks st key held rising h
