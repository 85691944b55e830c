-- ===== src/Session/Identity.antt =====
-- The identities of work: no epoch is offered twice, and what a reconciled snapshot says of the work
-- that the host still owns.
use suprminer_fpga.Prelude.{
  ℕ, ◌^◌, ◌≤◌, ◌<◌, ◌≡◌, ◌≢◌, ◌⊎◌, inl, inr, true, false, not, ◌&&◌, ◌||◌, none, some, List, [],
  ◌∷◌, arith, Bool-cases, ap, ◌∙◌,
}
use suprminer_fpga.Protocol.{Status, has_flag}
use suprminer_fpga.Protocol.Flag
use suprminer_fpga.Session.{
  SessionState, WorkTuple, WorkSlot, tuple_equal, session_init, begin_offer, hw_tuple, slot_eq,
  visible_head, promote, reconcile_active, reconcile,
}
use suprminer_fpga.Session.Compatible.{status_compatible, compatible-IsCoherent}
use suprminer_fpga.Session.Rate.{
  RateLimits, rate_measure, rate_sample, display_measure, display_rate_sample,
}

-- The history of one session: the states it reaches, and the epochs that it offered, newest first.
pub data SessionReach (build session : ℕ) : SessionState → List ℕ → Type 0 where
  starts :
      {s : SessionState} → session_init build session ≡ some s → SessionReach build session s []
  offers :
      {s u : SessionState} {t : WorkTuple} {is : List ℕ}
      → SessionReach build session s is
      → begin_offer s ≡ (u, some t)
      → SessionReach build session u (t.epoch ∷ is)
  reconciles :
      {s : SessionState} {is : List ℕ} (st : Status)
      → SessionReach build session s is
      → SessionReach build session (reconcile s st).0 is
  samples :
      {s : SessionState} {is : List ℕ} (st : Status) (now : ℕ) (l : RateLimits)
      → SessionReach build session s is
      → SessionReach build session (rate_sample s st now l).0 is
  displays :
      {s : SessionState} {is : List ℕ} (st : Status) (now min_interval_us : ℕ) (l : RateLimits)
      → SessionReach build session s is
      → SessionReach build session (display_rate_sample s st now min_interval_us l).0 is

abbrev pub newest : List ℕ → ℕ
newest [] = 0
newest (e ∷ es) = e

-- Each epoch is above all that were offered before it, and none is zero.
abbrev pub Falling : List ℕ → Type 0
Falling [] = Unit {0}
Falling (e ∷ es) = (newest es < e) × Falling es

-- Next epoch zero means that all are used up.
pub record Inv (session : ℕ) (s : SessionState) (is : List ℕ) : Type 0 where
  pub same_session : s.session ≡ session
  pub falling : Falling is
  pub word : newest is < 2 ^ 32
  pub next_fresh : (s.next_epoch ≡ 0) ⊎ (newest is < s.next_epoch)
  pub next_word : s.next_epoch < 2 ^ 32
  pub pending_newest :
      s.pending_valid ≡ true → (s.pending.epoch ≡ newest is) × (s.pending.session ≡ session)
  pub active_offered :
      s.active_valid ≡ true
      → (s.active.epoch ≤ newest is) × (s.active.epoch ≢ 0) × (s.active.session ≡ session)
  pub apart : s.active_valid ≡ true → s.pending_valid ≡ true → s.active.epoch < s.pending.epoch

init-Inv :
    (build session : ℕ) {s : SessionState} → session_init build session ≡ some s → Inv session s []
unfolding session_init
init-Inv build session h = ground arith

-- A tuple that is offered bears the session and an epoch above all that were offered before.
pub begin_offer-fresh :
    (session : ℕ) (s u : SessionState) (t : WorkTuple) (is : List ℕ)
    → Inv session s is
    → begin_offer s ≡ (u, some t)
    → (t.session ≡ session)
      × (newest is < t.epoch)
      × (t.epoch ≡ s.next_epoch)
      × (s.pending_valid ≡ false)
unfolding begin_offer
begin_offer-fresh session s u t is inv h = ground arith

offer-Inv :
    (session : ℕ) (s u : SessionState) (t : WorkTuple) (is : List ℕ)
    → Inv session s is
    → begin_offer s ≡ (u, some t)
    → Inv session u (t.epoch ∷ is)
unfolding begin_offer
offer-Inv session s u t is inv h = ground (arith, begin_offer-fresh session s u t is inv h)

promote-Inv :
    (session : ℕ) (s : SessionState) (is : List ℕ)
    → Inv session s is
    → s.pending_valid ≡ true
    → s.pending.epoch ≢ 0
    → Inv session (promote s) is
unfolding promote
promote-Inv session s is inv h = ground arith

active_cases :
    (s : SessionState) (st : Status) (head : WorkSlot)
    → (reconcile_active s st head ≡ (s, none))
      ⊎ ((reconcile_active s st head ≡ (s, some (head, false)))
          × (has_flag st.flags Flag.active_valid ≡ s.active_valid)
          × (s.active_valid ≡ true → hw_tuple st ≡ s.active))
      ⊎ ((reconcile_active s st head ≡ (promote s, some (head, true)))
          × (has_flag st.flags Flag.active_valid ≡ true)
          × (s.pending_valid ≡ true)
          × (hw_tuple st ≡ s.pending)
          × (head ≢ WorkSlot.active))
unfolding reconcile_active
active_cases s st head = elim (Bool-cases (has_flag st.flags Flag.active_valid)) [
  | inr idle ↦ elim (Bool-cases s.active_valid) [
    | inl a ↦ inl (ground arith)
    | inr a ↦ inr (inl (ground arith, ground arith, λ e. ground arith))
  ]
  | inl busy ↦ elim (Bool-cases (s.pending_valid && tuple_equal (hw_tuple st) s.pending)) [
    | inl p ↦ elim (Bool-cases (slot_eq head WorkSlot.active)) [
      | inl h ↦ inl (ground arith)
      | inr h ↦ inr (inr (ground arith, busy, ground arith, ground arith, λ e. ground arith))
    ]
    | inr p ↦ elim (Bool-cases (not s.active_valid || not (tuple_equal (hw_tuple st) s.active))) [
      | inl a ↦ inl (ground arith)
      | inr a ↦ inr (inl (ground arith, ground arith, λ e. ground arith))
    ]
  ]
]

pub reconcile_cases :
    (s : SessionState) (st : Status)
    → (reconcile s st ≡ (s, none))
      ⊎ ((status_compatible st s.expected_build_id ≡ true)
          × (has_flag st.flags Flag.head_valid ≡ true → visible_head s st ≢ WorkSlot.vacant)
          × (((reconcile s st ≡ (s, some (visible_head s st, false)))
                × (has_flag st.flags Flag.active_valid ≡ s.active_valid)
                × (s.active_valid ≡ true → hw_tuple st ≡ s.active))
              ⊎ ((reconcile s st ≡ (promote s, some (visible_head s st, true)))
                  × (has_flag st.flags Flag.active_valid ≡ true)
                  × (s.pending_valid ≡ true)
                  × (hw_tuple st ≡ s.pending)
                  × (visible_head s st ≢ WorkSlot.active))))
unfolding reconcile
reconcile_cases s st = elim (Bool-cases (status_compatible st s.expected_build_id)) [
  | inr bad ↦ inl (rw bad)
  | inl good ↦
      elim (Bool-cases
        (has_flag st.flags Flag.head_valid && slot_eq (visible_head s st) WorkSlot.vacant)) [
          | inl lost ↦ inl (rw (good, lost))
          | inr owned ↦ elim (active_cases s st (visible_head s st)) [
            | inl e ↦ inl (rw (good, owned) e)
            | inr (inl (e, a, b)) ↦ inr (good, λ h v. ground arith, inl (rw (good, owned) e, a, b))
            | inr (inr (e, a, b, c, d)) ↦
                inr (good, λ h v. ground arith, inr (rw (good, owned) e, a, b, c, d))
          ]
        ]
]

reconcile-Inv :
    (session : ℕ) (s : SessionState) (st : Status) (is : List ℕ)
    → Inv session s is
    → Inv session (reconcile s st).0 is
reconcile-Inv session s st is inv = elim (reconcile_cases s st) [
  | inl e ↦ rw e inv
  | inr (_, _, inl (e, _, _)) ↦ rw e inv
  | inr (good, _, inr (e, flag, p, same, _)) ↦
      let (_, epoch) = (compatible-IsCoherent st s.expected_build_id good).active_nonzero flag in
      rw e (promote-Inv session s is inv p (λ z. epoch (ap (λ t. t.epoch) same ∙ z)))
]

-- Sampling touches nothing that identifies work.
sample-Inv :
    (session : ℕ) (s : SessionState) (st : Status) (now : ℕ) (l : RateLimits) (is : List ℕ)
    → Inv session s is
    → Inv session (rate_sample s st now l).0 is
unfolding rate_sample rate_measure
sample-Inv session s st now l is inv = ground arith

display-Inv :
    (session : ℕ) (s : SessionState) (st : Status) (now min_interval_us : ℕ) (l : RateLimits)
    (is : List ℕ)
    → Inv session s is
    → Inv session (display_rate_sample s st now min_interval_us l).0 is
unfolding display_rate_sample display_measure
display-Inv session s st now min_interval_us l is inv = ground arith

-- After any history of a session the epochs that it offered are nonzero and strictly rising, so none
-- is offered twice; the pending work is the newest offer, and the active work is an older one.
pub SessionReach-Inv :
    {build session : ℕ} {s : SessionState} {is : List ℕ}
    → SessionReach build session s is
    → Inv session s is
SessionReach-Inv {build} {session} (starts h) = init-Inv build session h
SessionReach-Inv {build} {session} (offers {s} {u} {t} {is} r h) =
    offer-Inv session s u t is (SessionReach-Inv r) h
SessionReach-Inv {build} {session} (reconciles {s} {is} st r) =
    reconcile-Inv session s st is (SessionReach-Inv r)
SessionReach-Inv {build} {session} (samples {s} {is} st now l r) =
    sample-Inv session s st now l is (SessionReach-Inv r)
SessionReach-Inv {build} {session} (displays {s} {is} st now m l r) =
    display-Inv session s st now m l is (SessionReach-Inv r)
