-- ===== src/Transport/Phases.antt =====
-- What a connection must have passed before it may share, and what a reconnect takes away.
use suprminer_fpga.Prelude.{
  ℕ, ◌^◌, ◌<◌, ◌≡◌, ◌≢◌, ◌⊎◌, inl, inr, refl, true, false, arith, List, [], ◌∷◌, subst, ◌∙◌,
}
use suprminer_fpga.Transport.{
  disconnected, connecting, connected_unauth, authenticated, TransportState, init, next_generation,
  begin_connect, mark_connected, mark_authenticated, poison, can_share, job_usable,
}

-- The calls that change the state.
pub data Event : Type 0 where
  begins poisons : Event
  connects authenticates : ℕ → Event

unfoldable pub step : TransportState → Event → TransportState
step s begins = (begin_connect s).0
step s (connects g) = (mark_connected s g).0
step s (authenticates g) = (mark_authenticated s g).0
step s poisons = poison s

-- The newest call stands first.
unfoldable pub run : List Event → TransportState
run [] = init
run (e ∷ es) = step (run es) e

-- A generation is a `uint64_t`, and only a transport that never connected has generation zero.
pub record Inv (s : TransportState) : Type 0 where
  pub word : s.generation < 2 ^ 64
  pub started : s.phase ≢ disconnected → s.generation ≢ 0

step-Inv : (s : TransportState) (e : Event) → Inv s → Inv (step s e)
unfolding step begin_connect next_generation mark_connected mark_authenticated poison
step-Inv s begins inv = ground arith
step-Inv s (connects g) inv = ground arith
step-Inv s (authenticates g) inv = ground arith
step-Inv s poisons inv = ground arith

pub run-Inv : (es : List Event) → Inv (run es)
unfolding run init
run-Inv [] = ground arith
run-Inv (e ∷ es) = step-Inv (run es) e (run-Inv es)

-- The history, newest first, holds the `begin_connect` that issued generation `g`, and since then
-- only calls that were refused.
pub data Opened (g : ℕ) : List Event → Type 0 where
  begun : (es : List Event) → (begin_connect (run es)).1 ≡ g → Opened g (begins ∷ es)
  later : {es : List Event} (e : Event) → Opened g es → step (run es) e ≡ run es → Opened g (e ∷ es)

-- It goes on with the connection of that attempt.
pub data Linked (g : ℕ) : List Event → Type 0 where
  linked : (es : List Event) → Opened g es → Linked g (connects g ∷ es)
  later : {es : List Event} (e : Event) → Linked g es → step (run es) e ≡ run es → Linked g (e ∷ es)

-- And then with its authentication.
pub data Trusted (g : ℕ) : List Event → Type 0 where
  trusted : (es : List Event) → Linked g es → Trusted g (authenticates g ∷ es)
  later :
      {es : List Event} (e : Event) → Trusted g es → step (run es) e ≡ run es → Trusted g (e ∷ es)

-- A mark either is refused and changes nothing, or moves the phase of its own generation.
connected_cases :
    (s : TransportState) (g : ℕ)
    → (step s (connects g) ≡ s)
      ⊎ ((s.phase ≡ connecting)
          × (s.generation ≡ g)
          × (step s (connects g) ≡ record s { phase = connected_unauth }))
unfolding step mark_connected
connected_cases s g = ground arith

authenticated_cases :
    (s : TransportState) (g : ℕ)
    → (step s (authenticates g) ≡ s)
      ⊎ ((s.phase ≡ connected_unauth)
          × (s.generation ≡ g)
          × (step s (authenticates g) ≡ record s { phase = authenticated }))
unfolding step mark_authenticated
authenticated_cases s g = ground arith

connecting-Opened : (es : List Event) → (run es).phase ≡ connecting → Opened (run es).generation es
unfolding run
connecting-Opened [] h = absurd (unfold init in cc)
connecting-Opened (begins ∷ es) h = begun es (unfold step begin_connect in refl)
connecting-Opened (poisons ∷ es) h = absurd (unfold step poison in cc)
connecting-Opened (connects g ∷ es) h = elim (connected_cases (run es) g) [
  | inl e ↦ rw e (later (connects g) (connecting-Opened es (ground arith)) e)
  | inr (_, _, e) ↦ absurd (ground arith)
]
connecting-Opened (authenticates g ∷ es) h = elim (authenticated_cases (run es) g) [
  | inl e ↦ rw e (later (authenticates g) (connecting-Opened es (ground arith)) e)
  | inr (_, _, e) ↦ absurd (ground arith)
]

unauth-Linked :
    (es : List Event) → (run es).phase ≡ connected_unauth → Linked (run es).generation es
unfolding run
unauth-Linked [] h = absurd (unfold init in cc)
unauth-Linked (begins ∷ es) h = absurd (unfold step begin_connect in cc)
unauth-Linked (poisons ∷ es) h = absurd (unfold step poison in cc)
unauth-Linked (connects g ∷ es) h = elim (connected_cases (run es) g) [
  | inl e ↦ rw e (later (connects g) (unauth-Linked es (ground arith)) e)
  | inr (p, q, e) ↦ rw (e, q) (linked es (subst (λ n. Opened n es) q (connecting-Opened es p)))
]
unauth-Linked (authenticates g ∷ es) h = elim (authenticated_cases (run es) g) [
  | inl e ↦ rw e (later (authenticates g) (unauth-Linked es (ground arith)) e)
  | inr (_, _, e) ↦ absurd (ground arith)
]

authenticated-Trusted :
    (es : List Event) → (run es).phase ≡ authenticated → Trusted (run es).generation es
unfolding run
authenticated-Trusted [] h = absurd (unfold init in cc)
authenticated-Trusted (begins ∷ es) h = absurd (unfold step begin_connect in cc)
authenticated-Trusted (poisons ∷ es) h = absurd (unfold step poison in cc)
authenticated-Trusted (connects g ∷ es) h = elim (connected_cases (run es) g) [
  | inl e ↦ rw e (later (connects g) (authenticated-Trusted es (ground arith)) e)
  | inr (_, _, e) ↦ absurd (ground arith)
]
authenticated-Trusted (authenticates g ∷ es) h = elim (authenticated_cases (run es) g) [
  | inl e ↦ rw e (later (authenticates g) (authenticated-Trusted es (ground arith)) e)
  | inr (p, q, e) ↦ rw (e, q) (trusted es (subst (λ n. Linked n es) q (unauth-Linked es p)))
]

-- A transport may share only if its history holds, for its own generation, the start of the
-- attempt, then the connection, then the authentication, with only refused calls in between and
-- since.
pub can_share_needs_handshake :
    (es : List Event) → can_share (run es) ≡ true → Trusted (run es).generation es
unfolding can_share
can_share_needs_handshake es h = authenticated-Trusted es (ground arith)

-- The calls that can follow within one attempt.
pub data Stays : Event → Type 0 where
  connects_stays : (g : ℕ) → Stays (connects g)
  authenticates_stays : (g : ℕ) → Stays (authenticates g)
  poisons_stays : Stays poisons

pub run_from : TransportState → List Event → TransportState
run_from s [] = s
run_from s (e ∷ es) = run_from (step s e) es

abbrev pub AllStay : List Event → Type 0
AllStay [] = Unit {0}
AllStay (e ∷ es) = Stays e × AllStay es

generation-step : (s : TransportState) (e : Event) → Stays e → (step s e).generation ≡ s.generation
unfolding step mark_connected mark_authenticated poison
generation-step s begins h = elim h [ ]
generation-step s (connects g) h = ground arith
generation-step s (authenticates g) h = ground arith
generation-step s poisons h = refl

generation-run_from :
    (s : TransportState) (es : List Event) → AllStay es → (run_from s es).generation ≡ s.generation
unfolding run_from
generation-run_from s [] h = refl
generation-run_from s (e ∷ es) h = generation-run_from (step s e) es h.1 ∙ generation-step s e h.0

next_generation_ne : (g : ℕ) → g < 2 ^ 64 → next_generation g ≢ g
unfolding next_generation
next_generation_ne g h = ground arith

-- In a well-formed state, a job that was usable stops being so with the next `begin_connect`, and
-- stays unusable through the whole attempt, whatever marks and poisonings follow.
pub reconnect_retires_job :
    (s : TransportState) (job : ℕ) (es : List Event)
    → Inv s
    → job_usable s job ≡ true
    → AllStay es
    → job_usable (run_from (begin_connect s).0 es) job ≡ false
unfolding job_usable can_share begin_connect
reconnect_retires_job s job es inv h stay = ground (
  arith,
  generation-run_from (begin_connect s).0 es stay,
  next_generation_ne s.generation inv.word,
)
