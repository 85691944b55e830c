-- ===== src/Gate/Snapshots.antt =====
-- The two snapshots that the gate lets through, at the start and before a rollback.
use suprminer_fpga.Prelude.{
  ℕ, ◌≡◌, ap, Bool, true, false, not, ◌&&◌, ◌||◌, ◌==◌, arith, and_parts, or_parts, ==_iff,
}
use suprminer_fpga.Protocol.{Status, has_flag}
use suprminer_fpga.Protocol.Flag
use suprminer_fpga.Session.Compatible.{status_body_bad, status_compatible, status_healthy}
use suprminer_fpga.Gate.{startup_status_ok}

compatible-body : (s : Status) (b : ℕ) → status_compatible s b ≡ true → status_body_bad s ≡ false
unfolding status_compatible
compatible-body s b h = ground arith

-- No active work, no head and no result.
pub record IsIdle (s : Status) : Type 0 where
  pub no_session : s.active_session ≡ 0
  pub no_epoch : s.active_epoch ≡ 0
  pub no_head_session : s.head_session ≡ 0
  pub no_head_epoch : s.head_epoch ≡ 0
  pub no_sequence : s.head_sequence ≡ 0
  pub no_results : s.occupancy ≡ 0

healthy-compatible : (s : Status) (b : ℕ) → status_healthy s b ≡ true → status_compatible s b ≡ true
unfolding status_healthy
healthy-compatible s b h = (and_parts _ _ h).0

idle_pair :
    (a : Bool) (x y : ℕ)
    → (not a && (not (x == 0) || not (y == 0))) ≡ false
    → a ≡ false
    → (x ≡ 0) × (y ≡ 0)
idle_pair a x y h e = ground arith

idle_heads :
    (a : Bool) (x y z u v : ℕ)
    → (not a && (not (x == 0) || not (y == 0) || not (z == 0) || not (u == 0) || not (v == 0)))
      ≡ false
    → a ≡ false
    → (x ≡ 0) × (y ≡ 0) × (z ≡ 0)
idle_heads a x y z u v h e = ground arith

body-IsIdle :
    (s : Status)
    → status_body_bad s ≡ false
    → has_flag s.flags Flag.active_valid ≡ false
    → has_flag s.flags Flag.head_valid ≡ false
    → s.occupancy ≡ 0
    → IsIdle s
unfolding status_body_bad
body-IsIdle s h active head none_queued =
    let (r0, heads) = or_parts _ _ h in
    let (r1, _) = or_parts _ _ r0 in
    let (r2, actives) = or_parts _ _ r1 in
    let (session, epoch) = idle_pair _ s.active_session s.active_epoch actives active in
    let (head_session, head_epoch, sequence) =
      idle_heads _ s.head_session s.head_epoch s.head_sequence _ _ heads head in
    record {
      no_session = session;
      no_epoch = epoch;
      no_head_session = head_session;
      no_head_epoch = head_epoch;
      no_sequence = sequence;
      no_results = none_queued;
    }

-- A snapshot that a lane may start from is of a build that is healthy, paused, and idle: no work is
-- active, no result is at the head or queued, and no hash has been counted.
pub startup_status_ok-IsIdle :
    (s : Status) (expected_build_id : ℕ)
    → startup_status_ok s expected_build_id ≡ true
    → (status_healthy s expected_build_id ≡ true)
      × (s.flags ≡ Flag.paused)
      × IsIdle s
      × (s.completed_hashes ≡ 0)
unfolding startup_status_ok
startup_status_ok-IsIdle s b h =
    let (h1, _) = and_parts _ _ h in
    let (h2, _) = and_parts _ _ h1 in
    let (h3, _) = and_parts _ _ h2 in
    let (h4, hashes) = and_parts _ _ h3 in
    let (h5, queued) = and_parts _ _ h4 in
    let (h6, flags) = and_parts _ _ h5 in
    let (healthy, _) = and_parts _ _ h6 in
    let paused : s.flags ≡ Flag.paused = (==_iff s.flags Flag.paused).0 flags in
    (
      healthy,
      paused,
      body-IsIdle s (compatible-body s b (healthy-compatible s b healthy))
          (ap (λ x. has_flag x Flag.active_valid) paused)
          (ap (λ x. has_flag x Flag.head_valid) paused) ((==_iff s.occupancy 0).0 queued),
      (==_iff s.completed_hashes 0).0 hashes,
    )
