-- ===== src/Protocol/Samples.antt =====
-- Snapshots of one FPGA of build 0xbeef that hashes epoch 1 of session 5, for the runs.
use suprminer_fpga.Prelude.{ℕ, ◌-◌}
use suprminer_fpga.Protocol.{Status, abi_id, protocol_version, type_result, type_status}

-- It has completed `n` hashes, and the diagnostic is the last of them.
abbrev pub busy : ℕ → Status
busy n = record {
  progress_generation = n;
  progress_nonce = n - 1;
  progress_hash7 = 0x1234;
  completed_hashes = n;
  abi = abi_id;
  build_id = 0xbeef;
  version = protocol_version;
  frame_type = type_status;
  occupancy = 0;
  flags = 0x04;
  head_session = 0;
  head_epoch = 0;
  head_sequence = 0;
  head_nonce = 0;
  head_hash7 = 0;
  active_session = 5;
  active_epoch = 1;
}

-- The same with the first result at the head of the FIFO.
abbrev pub with_result : Status
with_result = record (busy 100) {
  frame_type = type_result;
  occupancy = 1;
  flags = 0x05;
  head_session = 5;
  head_epoch = 1;
  head_sequence = 1;
  head_nonce = 42;
  head_hash7 = 7;
}
