-- ===== src/Transport.antt =====
-- stratum_transport_guard.h: the phases of the pool connection and the generation of each attempt.
-- The state is taken as a non-null object; a `uint64_t` generation wraps at 2 ^ 64.
pub mod Phases
mod Runs
use suprminer_fpga.Prelude.{
  ℕ, ◌+◌, ◌%◌, ◌^◌, Bool, true, false, not, ◌&&◌, ◌||◌, ◌==◌, if◌then◌else◌,
}

pub data Phase : Type 0 where
  disconnected connecting connected_unauth authenticated : Phase

abbrev pub phase_eq : Phase → Phase → Bool
phase_eq disconnected disconnected = true
phase_eq connecting connecting = true
phase_eq connected_unauth connected_unauth = true
phase_eq authenticated authenticated = true
phase_eq _ _ = false

pub record TransportState : Type 0 where
  pub phase : Phase
  pub generation : ℕ

unfoldable pub init : TransportState
init = record { phase = disconnected; generation = 0 }

-- `generation++`, with zero skipped when it wraps.
unfoldable pub next_generation : ℕ → ℕ
next_generation g = if (g + 1) % 2 ^ 64 == 0 then 1 else (g + 1) % 2 ^ 64

-- The new state, and the generation that the caller gets.
unfoldable pub begin_connect : TransportState → TransportState × ℕ
begin_connect s =
    let g = next_generation s.generation in (record { phase = connecting; generation = g }, g)

unfoldable pub mark_connected : TransportState → ℕ → TransportState × Bool
mark_connected s g =
    if g == 0 || not (phase_eq s.phase connecting) || not (s.generation == g)
    then (s, false)
    else (record s { phase = connected_unauth }, true)

unfoldable pub mark_authenticated : TransportState → ℕ → TransportState × Bool
mark_authenticated s g =
    if g == 0 || not (phase_eq s.phase connected_unauth) || not (s.generation == g)
    then (s, false)
    else (record s { phase = authenticated }, true)

unfoldable pub poison : TransportState → TransportState
poison s = record s { phase = disconnected }

unfoldable pub can_control : TransportState → Bool
can_control s =
    (phase_eq s.phase connected_unauth || phase_eq s.phase authenticated) && not (s.generation == 0)

unfoldable pub can_share : TransportState → Bool
can_share s = phase_eq s.phase authenticated && not (s.generation == 0)

unfoldable pub job_usable : TransportState → ℕ → Bool
job_usable s job = can_share s && not (job == 0) && job == s.generation

-- Arguments: Stratum mode, the share is current, `submit_old`, the previous hashes match.
unfoldable pub submission_is_stale : Bool → Bool → Bool → Bool → Bool
submission_is_stale stratum_mode share_current submit_old prevhash_matches =
    if stratum_mode then not share_current else not submit_old && not prevhash_matches
