-- ===== src/JobGuard/Layout.antt =====
-- The coinbase layout: when it is accepted, and that extranonce2 then lies inside the buffer.
use suprminer_fpga.Prelude.{ℕ, ◌+◌, ◌≤◌, ◌<◌, ◌≡◌, ◌↔◌, true, some, arith}
use suprminer_fpga.JobGuard.{
  xnonce1_max, xnonce2_max, coinbase_max, coinbase_layout, xnonce_layout_valid,
}

-- The parts fit their own limits, and together they are neither empty nor above the limit.
pub record Fits (coinb1 xnonce1 xnonce2 coinb2 : ℕ) : Type 0 where
  pub xnonce1_fits : xnonce1 ≤ xnonce1_max
  pub xnonce2_fits : xnonce2 ≤ xnonce2_max
  pub nonempty : 0 < coinb1 + xnonce1 + xnonce2 + coinb2
  pub total_fits : coinb1 + xnonce1 + xnonce2 + coinb2 ≤ coinbase_max

-- A layout is accepted exactly when its parts fit, and the answer is then the place of extranonce2
-- and the whole size.
pub coinbase_layout_iff :
    (coinb1 xnonce1 xnonce2 coinb2 offset total : ℕ)
    → (coinbase_layout coinb1 xnonce1 xnonce2 coinb2 ≡ some (offset, total)) ↔ (
        Fits coinb1 xnonce1 xnonce2 coinb2
        × (offset ≡ coinb1 + xnonce1)
        × (total ≡ coinb1 + xnonce1 + xnonce2 + coinb2))
unfolding coinbase_layout
coinbase_layout_iff coinb1 xnonce1 xnonce2 coinb2 offset total =
    (λ e. ground arith, λ p. ground arith)

-- What `coinbase_layout` answers passes the check that is made again before the buffer is written,
-- and extranonce2 with what follows it ends inside the buffer.
pub coinbase_layout-xnonce_layout_valid :
    (coinb1 xnonce1 xnonce2 coinb2 : ℕ) {offset total : ℕ}
    → coinbase_layout coinb1 xnonce1 xnonce2 coinb2 ≡ some (offset, total)
    → (xnonce_layout_valid total offset xnonce2 ≡ true) × (offset + xnonce2 + coinb2 ≡ total)
unfolding coinbase_layout xnonce_layout_valid
coinbase_layout-xnonce_layout_valid coinb1 xnonce1 xnonce2 coinb2 h = ground arith
