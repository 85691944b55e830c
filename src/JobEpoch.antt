-- ===== src/JobEpoch.antt =====
-- util.c: the epochs of the pool's jobs, and which shares are still current. Both locks are held round
-- each of these steps, and pointers are non-null.
pub mod Publishing
mod Runs
use suprminer_fpga.Prelude.{
  ℕ, ◌+◌, ◌%◌, ◌^◌, Bool, true, false, not, ◌&&◌, ◌||◌, leb, ◌==◌, if◌then◌else◌,
}
use suprminer_fpga.Transport.{TransportState, job_usable}

-- `job_epoch_counter` and `minimum_valid_job_epoch`.
pub record Epochs : Type 0 where
  pub counter : ℕ
  pub minimum : ℕ

-- The epoch that `stratum_next_job_epoch_locked` returns is the counter afterwards.
unfoldable pub next_job_epoch : Epochs → Epochs
next_job_epoch s =
    let next : ℕ = (s.counter + 1) % 2 ^ 64 in
    if next == 0 then record { counter = 1; minimum = 1 } else record s { counter = next }

-- What `stratum_notify` does with the epochs for a new job, whose epoch is the counter afterwards.
unfoldable pub publish_job : Epochs → Bool → Epochs
publish_job s clean =
    let next = next_job_epoch s in
    if next.minimum == 0 || clean then record next { minimum = next.counter } else next

-- What a new subscription, a new extranonce or a new RPC 2 job does with the epochs: all shares of before
-- are retired.
unfoldable pub restart_epochs : Epochs → Epochs
restart_epochs s = let next = next_job_epoch s in record next { minimum = next.counter }

unfoldable pub is_epoch_current : Epochs → ℕ → Bool
is_epoch_current s job_epoch =
    not (s.minimum == 0) && leb s.minimum job_epoch && leb job_epoch s.counter

-- `connected` is `sctx->curl && sctx->sock != CURL_SOCKET_BAD`.
unfoldable pub is_work_current : Bool → TransportState → ℕ → Bool
is_work_current connected transport generation = connected && job_usable transport generation

unfoldable pub is_share_current : Bool → TransportState → Epochs → ℕ → ℕ → Bool
is_share_current connected transport s generation job_epoch =
    if job_epoch == 0
    then false
    else is_work_current connected transport generation && is_epoch_current s job_epoch
