-- ===== src/Session/Heads.antt =====
-- The result at the FIFO head after a reconciliation.
use suprminer_fpga.Prelude.{◌≡◌, ◌≢◌, inl, inr, sym, ◌∙◌, Bool, true, if◌then◌else◌, some, arith}
use suprminer_fpga.Protocol.{Status, has_flag}
use suprminer_fpga.Protocol.Flag
use suprminer_fpga.Session.{
  SessionState, WorkSlot, head_tuple, lookup, visible_head, promote, reconcile,
}
use suprminer_fpga.Session.Compatible.{compatible-IsCoherent}
use suprminer_fpga.Session.Identity.{reconcile_cases}

lookup_active :
    (s : SessionState) (st : Status)
    → s.active_valid ≡ true
    → s.active ≡ head_tuple st
    → has_flag st.flags Flag.head_valid ≡ true
    → visible_head s st ≡ WorkSlot.active
unfolding visible_head lookup
lookup_active s st a e h = ground arith

only_pending : (w : WorkSlot) → w ≢ WorkSlot.vacant → w ≢ WorkSlot.active → w ≡ WorkSlot.pending
only_pending w h k = ground arith

-- When a snapshot with a FIFO head is reconciled, the head belongs to the work that is active
-- afterwards, and the slot that is named is the one where the caller still finds that work: the
-- active slot without a switch, and with one the slot that was pending, so that the old active work
-- can be let go.
pub reconcile_head :
    (s u : SessionState) (st : Status) (slot : WorkSlot) (switched : Bool)
    → reconcile s st ≡ (u, some (slot, switched))
    → has_flag st.flags Flag.head_valid ≡ true
    → (u.active_valid ≡ true)
      × (u.active ≡ head_tuple st)
      × (slot ≡ (if switched then WorkSlot.pending else WorkSlot.active))
unfolding promote
reconcile_head s u st slot switched e h = elim (reconcile_cases s st) [
  | inl no_change ↦ absurd (ground arith)
  | inr (good, owned, inl (kept, flag, same)) ↦
      let (busy, sess, epoch) = (compatible-IsCoherent st s.expected_build_id good).head_active h in
      let valid : s.active_valid ≡ true = sym flag ∙ busy in
      let head : s.active ≡ head_tuple st = ground (arith, same valid) in
      ground (arith, lookup_active s st valid head h)
  | inr (good, owned, inr (moved, flag, p, same, other)) ↦
      let (busy, sess, epoch) = (compatible-IsCoherent st s.expected_build_id good).head_active h in
      ground (arith, only_pending (visible_head s st) (owned h) other)
]
