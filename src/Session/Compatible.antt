-- ===== src/Session/Compatible.antt =====
-- bc3_ztex_session.h: when a status snapshot is coherent, and healthy.
use suprminer_fpga.Prelude.{
  ℕ, ◌-◌, ◌≡◌, ◌≢◌, Bool, true, false, not, ◌&&◌, ◌||◌, ltb, ◌==◌, if◌then◌else◌, arith, or_parts,
}
use suprminer_fpga.Protocol.{
  Status, has_flag, bool_eq, abi_id, protocol_version, type_result, type_status, fifo_depth,
}
use suprminer_fpga.Protocol.Flag

-- The first test of `bc3_ztex_status_compatible`: this ABI, version and build, a known type, no flag
-- outside the mask 0xff (whose complement is zero), an occupancy within the FIFO.
unfoldable pub status_header_bad : Status → ℕ → Bool
status_header_bad s expected_build_id =
    expected_build_id == 0
    || not (s.abi == abi_id)
    || not (s.version == protocol_version)
    || not (s.build_id == expected_build_id)
    || (not (s.frame_type == type_result) && not (s.frame_type == type_status))
    || has_flag s.flags 0
    || ltb fifo_depth s.occupancy

-- The second test: a head exactly in a result frame and with a nonempty FIFO, full exactly at the
-- depth; an active tuple that is nonzero, with progress that trails the completed hashes by one at
-- most; nothing but zeros in what is not valid; quiesced only while paused by a latched pause.
unfoldable pub status_body_bad : Status → Bool
status_body_bad s =
    let head_valid = has_flag s.flags Flag.head_valid in
    let full = has_flag s.flags Flag.fifo_full in
    let active_valid = has_flag s.flags Flag.active_valid in
    let paused = has_flag s.flags Flag.paused in
    let quiesced = has_flag s.flags Flag.quiesced in
    let pause_latched = has_flag s.flags Flag.pause_latched in
    not (bool_eq head_valid (s.frame_type == type_result))
    || not (bool_eq head_valid (not (s.occupancy == 0)))
    || not (bool_eq full (s.occupancy == fifo_depth))
    || (active_valid && (s.active_session == 0 || s.active_epoch == 0))
    || (not active_valid
        && (not (s.progress_generation == 0)
            || not (s.progress_nonce == 0)
            || not (s.progress_hash7 == 0)
            || not (s.completed_hashes == 0)))
    || (active_valid
        && (ltb s.completed_hashes s.progress_generation
            || ltb 1 (s.completed_hashes - s.progress_generation)
            || (not (s.progress_generation == 0)
                && not (s.progress_nonce == s.progress_generation - 1))))
    || (s.progress_generation == 0 && (not (s.progress_nonce == 0) || not (s.progress_hash7 == 0)))
    || (quiesced && (not paused || not pause_latched))
    || (not active_valid && (not (s.active_session == 0) || not (s.active_epoch == 0)))
    || (head_valid
        && (not active_valid
            || not (s.head_session == s.active_session)
            || not (s.head_epoch == s.active_epoch)))
    || (not head_valid
        && (not (s.head_session == 0)
            || not (s.head_epoch == 0)
            || not (s.head_sequence == 0)
            || not (s.head_nonce == 0)
            || not (s.head_hash7 == 0)))

unfoldable pub status_compatible : Status → ℕ → Bool
status_compatible s expected_build_id =
    if status_header_bad s expected_build_id
    then false
    else if status_body_bad s
    then false
    else true

unfoldable pub status_healthy : Status → ℕ → Bool
status_healthy s expected_build_id =
    status_compatible s expected_build_id && not (has_flag s.flags Flag.protocol_error)

-- What the session relies on in a coherent snapshot.
pub record IsCoherent (s : Status) : Type 0 where
  pub active_nonzero :
      has_flag s.flags Flag.active_valid ≡ true → (s.active_session ≢ 0) × (s.active_epoch ≢ 0)
  pub head_active :
      has_flag s.flags Flag.head_valid ≡ true
      → (has_flag s.flags Flag.active_valid ≡ true)
        × (s.head_session ≡ s.active_session)
        × (s.head_epoch ≡ s.active_epoch)
  pub idle_zero : has_flag s.flags Flag.active_valid ≡ false → s.completed_hashes ≡ 0
  pub head_queued : has_flag s.flags Flag.head_valid ≡ true → s.occupancy ≢ 0

guarded : (a b : Bool) → (a && b) ≡ false → a ≡ true → b ≡ false
guarded a b h e = ground arith

neither_zero : (x y : ℕ) → (x == 0 || y == 0) ≡ false → (x ≢ 0) × (y ≢ 0)
neither_zero x y h = ground arith

same_tuple :
    (a : Bool) (x y u v : ℕ)
    → (not a || not (x == u) || not (y == v)) ≡ false
    → (a ≡ true) × (x ≡ u) × (y ≡ v)
same_tuple a x y u v h = ground arith

last_zero : (a b : Bool) (x : ℕ) → (not a && (b || not (x == 0))) ≡ false → a ≡ false → x ≡ 0
last_zero a b x h e = ground arith

queued_head : (a : Bool) (x : ℕ) → not (bool_eq a (not (x == 0))) ≡ false → a ≡ true → x ≢ 0
queued_head true x h e = ground arith
queued_head false x h e = ground arith

body-IsCoherent : (s : Status) → status_body_bad s ≡ false → IsCoherent s
unfolding status_body_bad
body-IsCoherent s h =
    let (r0, _) = or_parts _ _ h in
    let (r1, head) = or_parts _ _ r0 in
    let (r2, _) = or_parts _ _ r1 in
    let (r3, _) = or_parts _ _ r2 in
    let (r4, _) = or_parts _ _ r3 in
    let (r5, _) = or_parts _ _ r4 in
    let (r6, idle) = or_parts _ _ r5 in
    let (r7, active) = or_parts _ _ r6 in
    let (r8, _) = or_parts _ _ r7 in
    let (_, queued) = or_parts _ _ r8 in
    record {
      active_nonzero = λ a. neither_zero _ _ (guarded _ _ active a);
      head_active = λ a. same_tuple _ _ _ _ _ (guarded _ _ head a);
      idle_zero = last_zero _ _ _ idle;
      head_queued = queued_head _ _ queued;
    }

pub compatible-IsCoherent :
    (s : Status) (expected_build_id : ℕ)
    → status_compatible s expected_build_id ≡ true
    → IsCoherent s
unfolding status_compatible
compatible-IsCoherent s expected_build_id h = body-IsCoherent s (ground arith)
