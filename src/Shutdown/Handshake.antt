-- ===== src/Shutdown/Handshake.antt =====
-- The history that a successful stop must have had, and when its deadline expires.
use suprminer_fpga.Prelude.{
  is_zero, ℕ, ◌+◌, ◌≤◌, ◌<◌, ◌≡◌, ◌≢◌, ◌⊎◌, ◌↔◌, inl, inr, refl, Bool, true, false, ℤ, List, [],
  ◌∷◌, arith, sym, ◌∙◌,
}
use suprminer_fpga.Shutdown.{
  ShutdownState, init, request, mark_enqueued, mark_consumed, expired, final_success,
}

pub data Event : Type 0 where
  requests : Bool → Event
  enqueues : ℕ → Event
  consumes : Event

unfoldable pub step : ShutdownState → Event → ShutdownState
step s (requests failed) = request s failed
step s (enqueues at) = (mark_enqueued s at).0
step s consumes = (mark_consumed s).0

-- The newest call stands first.
unfoldable pub run : List Event → ShutdownState
run [] = init
run (e ∷ es) = step (run es) e

-- The calls of a history, newest first, hold a request; after one, an enqueuing at a nonzero time;
-- after one, a consumption.
pub data Requested : List Event → Type 0 where
  now : (failed : Bool) (es : List Event) → Requested (requests failed ∷ es)
  before : (e : Event) {es : List Event} → Requested es → Requested (e ∷ es)

pub data Enqueued : List Event → Type 0 where
  now : (at : ℕ) {es : List Event} → at ≢ 0 → Requested es → Enqueued (enqueues at ∷ es)
  before : (e : Event) {es : List Event} → Enqueued es → Enqueued (e ∷ es)

pub data Consumed : List Event → Type 0 where
  now : {es : List Event} → Enqueued es → Consumed (consumes ∷ es)
  before : (e : Event) {es : List Event} → Consumed es → Consumed (e ∷ es)

-- No request reported a failure.
abbrev pub Unfailing : List Event → Type 0
Unfailing [] = Unit {0}
Unfailing (requests failed ∷ es) = (failed ≡ false) × Unfailing es
Unfailing (enqueues at ∷ es) = Unfailing es
Unfailing (consumes ∷ es) = Unfailing es

pub record Inv (s : ShutdownState) : Type 0 where
  pub requested : s.token_enqueued ≡ true → s.stop_requested ≡ true
  pub timed : (s.token_enqueued ≡ true) ↔ (s.token_enqueued_us ≢ 0)
  pub enqueued : s.token_consumed ≡ true → s.token_enqueued ≡ true

step-Inv : (s : ShutdownState) (e : Event) → Inv s → Inv (step s e)
unfolding step request mark_enqueued mark_consumed
step-Inv s (requests failed) inv = ground arith
step-Inv s (enqueues at) inv = ground arith
step-Inv s consumes inv = ground arith

pub run-Inv : (es : List Event) → Inv (run es)
unfolding run init
run-Inv [] = ground arith
run-Inv (e ∷ es) = step-Inv (run es) e (run-Inv es)

requested-step :
    (s : ShutdownState) (e : Event) → s.stop_requested ≡ true → (step s e).stop_requested ≡ true
unfolding step request mark_enqueued mark_consumed
requested-step s (requests failed) h = refl
requested-step s (enqueues at) h = ground arith
requested-step s consumes h = ground arith

Requested-found : (es : List Event) → (run es).stop_requested ≡ true → Requested es
unfolding run step
Requested-found [] h = absurd (unfold init in ground arith)
Requested-found (requests failed ∷ es) h = now failed es
Requested-found (enqueues at ∷ es) h =
    before (enqueues at) (Requested-found es (unfold mark_enqueued in ground arith))
Requested-found (consumes ∷ es) h =
    before consumes (Requested-found es (unfold mark_consumed in ground arith))

Requested-held : {es : List Event} → Requested es → (run es).stop_requested ≡ true
unfolding run
Requested-held (now failed es) = unfold step request in refl
Requested-held (before e {es} h) = requested-step (run es) e (Requested-held h)

enqueued-step :
    (s : ShutdownState) (e : Event) → s.token_enqueued ≡ true → (step s e).token_enqueued ≡ true
unfolding step request mark_enqueued mark_consumed
enqueued-step s (requests failed) h = h
enqueued-step s (enqueues at) h = ground arith
enqueued-step s consumes h = ground arith

enqueue_cases :
    (s : ShutdownState) (at : ℕ)
    → ((step s (enqueues at)).token_enqueued ≡ s.token_enqueued)
      ⊎ ((at ≢ 0) × (s.stop_requested ≡ true))
unfolding step mark_enqueued
enqueue_cases s at = ground arith

enqueue_done :
    (s : ShutdownState) (at : ℕ)
    → Inv s
    → at ≢ 0
    → s.stop_requested ≡ true
    → (step s (enqueues at)).token_enqueued ≡ true
unfolding step mark_enqueued
enqueue_done s at inv nz h = ground arith

Enqueued-found : (es : List Event) → (run es).token_enqueued ≡ true → Enqueued es
unfolding run
Enqueued-found [] h = absurd (unfold init in ground arith)
Enqueued-found (requests failed ∷ es) h =
    before (requests failed) (Enqueued-found es (unfold step request in h))
Enqueued-found (enqueues at ∷ es) h = elim (enqueue_cases (run es) at) [
  | inl e ↦ before (enqueues at) (Enqueued-found es (sym e ∙ h))
  | inr (nz, r) ↦ now at nz (Requested-found es r)
]
Enqueued-found (consumes ∷ es) h =
    before consumes (Enqueued-found es (unfold step mark_consumed in ground arith))

Enqueued-held : {es : List Event} → Enqueued es → (run es).token_enqueued ≡ true
unfolding run
Enqueued-held (now at {es} nz r) = enqueue_done (run es) at (run-Inv es) nz (Requested-held r)
Enqueued-held (before e {es} h) = enqueued-step (run es) e (Enqueued-held h)

consumed-step :
    (s : ShutdownState) (e : Event) → s.token_consumed ≡ true → (step s e).token_consumed ≡ true
unfolding step request mark_enqueued mark_consumed
consumed-step s (requests failed) h = h
consumed-step s (enqueues at) h = ground arith
consumed-step s consumes h = ground arith

consume_cases :
    (s : ShutdownState)
    → ((step s consumes).token_consumed ≡ s.token_consumed) ⊎ (s.token_enqueued ≡ true)
unfolding step mark_consumed
consume_cases s = ground arith

consume_done :
    (s : ShutdownState) → Inv s → s.token_enqueued ≡ true → (step s consumes).token_consumed ≡ true
unfolding step mark_consumed
consume_done s inv h = ground arith

Consumed-found : (es : List Event) → (run es).token_consumed ≡ true → Consumed es
unfolding run
Consumed-found [] h = absurd (unfold init in ground arith)
Consumed-found (requests failed ∷ es) h =
    before (requests failed) (Consumed-found es (unfold step request in h))
Consumed-found (enqueues at ∷ es) h =
    before (enqueues at) (Consumed-found es (unfold step mark_enqueued in ground arith))
Consumed-found (consumes ∷ es) h = elim (consume_cases (run es)) [
  | inl e ↦ before consumes (Consumed-found es (sym e ∙ h))
  | inr q ↦ now (Enqueued-found es q)
]

Consumed-held : {es : List Event} → Consumed es → (run es).token_consumed ≡ true
unfolding run
Consumed-held (now {es} q) = consume_done (run es) (run-Inv es) (Enqueued-held q)
Consumed-held (before e {es} h) = consumed-step (run es) e (Consumed-held h)

failure_iff : (es : List Event) → ((run es).failure ≡ false) ↔ Unfailing es
unfolding run step request mark_enqueued mark_consumed init
failure_iff [] = (λ e. tt, λ u. refl)
failure_iff (requests failed ∷ es) =
    (λ e. ground (arith, failure_iff es), λ u. ground (arith, failure_iff es))
failure_iff (enqueues at ∷ es) =
    (λ e. ground (arith, failure_iff es), λ u. ground (arith, failure_iff es))
failure_iff (consumes ∷ es) =
    (λ e. ground (arith, failure_iff es), λ u. ground (arith, failure_iff es))

final_success_parts :
    (s : ShutdownState) (w : ℤ)
    → Inv s
    → (final_success s w ≡ true)
      ↔ ((is_zero w ≡ true) × (s.token_consumed ≡ true) × (s.failure ≡ false))
unfolding final_success
final_success_parts s w inv = (λ e. ground arith, λ p. ground arith)

-- A stop is reported as successful exactly when the worker returned zero, no request of the history
-- reported a failure, and the history holds a request, after one the enqueuing of the token at a
-- nonzero time, and after that its consumption.
pub final_success_iff :
    (es : List Event) (w : ℤ)
    → (final_success (run es) w ≡ true) ↔ ((is_zero w ≡ true) × Consumed es × Unfailing es)
final_success_iff es w =
    let (there, back) = final_success_parts (run es) w (run-Inv es) in
    (
      λ e. let (z, c, f) = there e in (z, Consumed-found es c, (failure_iff es).0 f),
      λ p. back (p.0, Consumed-held p.1, (failure_iff es).1 p.2),
    )

-- The deadline expires exactly while the token is out, and then at once if the timeout is zero or the
-- clock went back, or when the timeout has passed.
pub expired_iff :
    (es : List Event) (now_us timeout : ℕ)
    → let s = run es in
      (expired s now_us timeout ≡ true) ↔ (
        (s.token_enqueued ≡ true)
        × (s.token_consumed ≡ false)
        × ((timeout ≡ 0)
            ⊎ (now_us < s.token_enqueued_us)
            ⊎ (s.token_enqueued_us + timeout ≤ now_us)))
unfolding expired
expired_iff es now_us timeout = let inv = run-Inv es in (λ e. ground arith, λ p. ground arith)
