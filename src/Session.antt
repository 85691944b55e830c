-- ===== src/Session.antt =====
-- bc3_ztex_session.h: which work the FPGA hashes and which is on offer. A word is a `uint32_t`, and
-- pointers are non-null.
pub mod Compatible
pub mod Identity
pub mod Heads
pub mod Rate
pub mod RateBounds
mod Runs
use suprminer_fpga.Prelude.{
  ℕ, ◌+◌, ◌%◌, ◌^◌, Bool, true, false, not, ◌&&◌, ◌||◌, ◌==◌, if◌then◌else◌, Option, none, some,
}
use suprminer_fpga.Protocol.{Status, has_flag}
use suprminer_fpga.Protocol.Flag
use Compatible.{status_compatible}

pub record WorkTuple : Type 0 where
  pub session : ℕ
  pub epoch : ℕ

pub data WorkSlot : Type 0 where
  vacant active pending : WorkSlot

pub record SessionState : Type 0 where
  pub expected_build_id : ℕ
  pub session : ℕ
  pub next_epoch : ℕ
  pub active_valid : Bool
  pub pending_valid : Bool
  pub active : WorkTuple
  pub pending : WorkTuple
  pub rate_valid : Bool
  pub rate_tuple : WorkTuple
  pub rate_completed : ℕ
  pub rate_time_us : ℕ
  pub display_rate_valid : Bool
  pub display_rate_tuple : WorkTuple
  pub display_rate_completed : ℕ
  pub display_rate_time_us : ℕ

abbrev pub tuple_equal : WorkTuple → WorkTuple → Bool
tuple_equal a b = a.session == b.session && a.epoch == b.epoch

abbrev pub zero_tuple : WorkTuple
zero_tuple = record { session = 0; epoch = 0 }

-- `none` for `false`, when the state is not written.
unfoldable pub session_init : ℕ → ℕ → Option SessionState
session_init expected_build_id session =
    if expected_build_id == 0 || session == 0
    then none
    else some (record {
      expected_build_id = expected_build_id;
      session = session;
      next_epoch = 1;
      active_valid = false;
      pending_valid = false;
      active = zero_tuple;
      pending = zero_tuple;
      rate_valid = false;
      rate_tuple = zero_tuple;
      rate_completed = 0;
      rate_time_us = 0;
      display_rate_valid = false;
      display_rate_tuple = zero_tuple;
      display_rate_completed = 0;
      display_rate_time_us = 0;
    })

-- The new state, and the tuple on offer; `none` for `false`.
unfoldable pub begin_offer : SessionState → SessionState × Option WorkTuple
begin_offer s =
    let offer : WorkTuple = record { session = s.session; epoch = s.next_epoch } in
    if s.pending_valid || s.next_epoch == 0 then (s, none) else (
      record s { pending = offer; next_epoch = (s.next_epoch + 1) % 2 ^ 32; pending_valid = true },
      some offer,
    )

unfoldable pub lookup : SessionState → WorkTuple → WorkSlot
lookup s t =
    if s.active_valid && tuple_equal s.active t
    then WorkSlot.active
    else if s.pending_valid && tuple_equal s.pending t
    then WorkSlot.pending
    else WorkSlot.vacant

abbrev pub head_tuple : Status → WorkTuple
head_tuple st = record { session = st.head_session; epoch = st.head_epoch }

abbrev pub hw_tuple : Status → WorkTuple
hw_tuple st = record { session = st.active_session; epoch = st.active_epoch }

abbrev pub slot_eq : WorkSlot → WorkSlot → Bool
slot_eq WorkSlot.vacant WorkSlot.vacant = true
slot_eq WorkSlot.active WorkSlot.active = true
slot_eq WorkSlot.pending WorkSlot.pending = true
slot_eq _ _ = false

-- `visible_head`: the slot of the FIFO head, if there is a head.
unfoldable pub visible_head : SessionState → Status → WorkSlot
visible_head s st =
    if has_flag st.flags Flag.head_valid then lookup s (head_tuple st) else WorkSlot.vacant

-- The pending work has become the active one.
unfoldable pub promote : SessionState → SessionState
promote s = record s {
  active = s.pending;
  active_valid = true;
  pending_valid = false;
  rate_valid = false;
  display_rate_valid = false;
}

-- `reconcile` behind the checks of the snapshot and of its head.
unfoldable pub reconcile_active :
    SessionState → Status → WorkSlot → SessionState × Option (WorkSlot × Bool)
reconcile_active s st head =
    if not (has_flag st.flags Flag.active_valid)
    then if s.active_valid then (s, none) else (s, some (head, false))
    else if s.pending_valid && tuple_equal (hw_tuple st) s.pending
    then if slot_eq head WorkSlot.active then (s, none) else (promote s, some (head, true))
    else if not s.active_valid || not (tuple_equal (hw_tuple st) s.active)
    then (s, none)
    else (s, some (head, false))

-- The new state with `*head_slot` and `*switched`; `none` for `false`, where the caller's two
-- variables are reset.
unfoldable pub reconcile : SessionState → Status → SessionState × Option (WorkSlot × Bool)
reconcile s st =
    let head = visible_head s st in
    if not (status_compatible st s.expected_build_id)
    then (s, none)
    else if has_flag st.flags Flag.head_valid && slot_eq head WorkSlot.vacant
    then (s, none)
    else reconcile_active s st head
