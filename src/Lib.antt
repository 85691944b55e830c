-- ===== src/Lib.antt =====
-- Host control logic of the FPGA miner: the guards and state machines that the driver fpga-miner.c, the
-- Stratum client in util.c and the device libraries call. Each is a header of static inline functions
-- over a small record; the callers hold a lock round each call, so that a history is a sequence of calls.
--
-- A pool connection goes through the phases of stratum_transport_guard.h, each attempt with a generation
-- of its own. What the pool sends is bounded by stratum_job_guard.h before memory is allocated for it.
-- Work goes to an FPGA as two frames of bc3_ztex_protocol.h; the FPGA answers with status frames, which
-- bc3_ztex_session.h reconciles with the work that the host offered, bc3_ztex_result.h turns into results
-- that are processed once, and bc3_ztex_progress.h checks for hashing that really happens. A result
-- becomes a share, which stratum_submit_map.h tracks from its queue over the send to the pool's response.
-- bc3_ztex_shutdown.h stops a worker. bc3_ztex_lane_policy.h says which FPGAs of a board take part, and
-- sha3_variant_ladder.h which clock image of a family of sha3_variant_family.h they run, and bc3_ztex_heartbeat_policy.h guards the heartbeat option.
-- bc3_ztex_gate.h, bc3_ztex_work.h and bc3_ztex_io.h let a lane start, pack its work and send it,
-- vu9p_bs1_policy.h rolls the work of a VU9P, and ztex_golden_dedup.h and sha3_nonce_zero.h see to it
-- that a hit of the older images is taken once and that nonce 0 is checked.
-- Below them, util.c puts the pool's lines together, numbers its jobs and converts its texts, ztex_safe_io.c moves work and
-- frames over USB in bounded attempts, and sha3_variant_state.c keeps the clock image of each FPGA in a file.
--
-- Files and what they model (paths from the repository's root):
-- - Prelude: C's tests on numbers, word bounds, arrays as lists, bits.
-- - SubmitMap: stratum_submit_map.h. The map is a record with the list of its 512 slots; admit, cancel,
--   mark_sent, take and begin_generation pass it on with their answer. Slots has lemmas on lists of slots,
--   Invariant and Admission the well-formed ledgers, Credits the numbers of slots in use, Lifecycle a share
--   from admission to response, Tickets and Ownership the callers' tickets and every interleaving.
-- - Transport: stratum_transport_guard.h; Phases has histories of its calls.
-- - JobGuard: stratum_job_guard.h; a string is the list of its bytes before the NUL, and `none` is NULL. Hex,
--   Layout and Height are about the string tests, the coinbase layout and the height in a coinbase.
-- - Protocol: bc3_ztex_protocol.h; a buffer is the list of its bytes. Flag has the flag bits, Words the
--   32-bit words and the CRC, Frames the encoders, Decoding the status decoder, Samples two snapshots.
-- - Session: bc3_ztex_session.h; Compatible has the tests of a snapshot and Rate the two rate samplers,
--   Identity the offers and reconciliations, Heads the FIFO head, RateBounds what a sample may report.
-- - Result: bc3_ztex_result.h; Sequence has its histories.
-- - Progress: bc3_ztex_progress.h; Verified has its histories.
-- - Shutdown: bc3_ztex_shutdown.h; Handshake has its histories.
-- - LanePolicy: bc3_ztex_lane_policy.h; Masks treats masks as sets of lanes, Order and Selection the two
--   texts, Policy both.
-- - Ladder: sha3_variant_ladder.h; Rungs has the searches and Governor runs of windows.
-- - Heartbeat: bc3_ztex_heartbeat_policy.h; Texts has the tests of its texts and Policy the option and the
--   accepted scopes.
-- - LineReader: the reading side of the Stratum connection in util.c; Growth has the buffer's growth, Received
--   what the loop keeps, Taken and Stream the line that is returned, Delivery and InTime a pool in time.
-- - Encoding: the encodings in util.c; Hex, Varint, Base58 and Decoded, and Target the test of a hash.
-- - StateFile: sha3_variant_state.c; Lines has the reading by fgets, RoundTrip the records, Saved the files.
-- - SafeIo: ztex_safe_io.c; Work has the work transfers and Frame the frame transfers.
-- - Gate: bc3_ztex_gate.h, bc3_ztex_work.h and bc3_ztex_io.h; BuildId, Payload and Transfers have the three,
--   Snapshots the gate's tests of a status.
-- - Vu9pPolicy: vu9p_bs1_policy.h; Rolling has the allowance and the roll decision.
-- - Golden: ztex_golden_dedup.h and sha3_nonce_zero.h; Readback and NonceZero have the two.
-- - JobEpoch: the epochs of the pool's jobs in util.c; Publishing has what a new job or a restart leaves current.
-- - VariantFamily: sha3_variant_family.h; Accepted has what an accepted family guarantees.
-- Each component has a Runs file with small runs and concrete cases of its theorems.
--
-- Conventions: a function that writes through pointers returns what it writes; a `bool` answer whose false
-- case writes nothing is an Option. Pointers are taken as non-null where every caller passes the address
-- of an object. `size_t` and `uint64_t` have 64 bits; unsigned arithmetic that can wrap is written with
-- `% 2 ^ w`, and subtractions stand behind the tests that keep them from going below zero. An `int` is an
-- integer, and enumerations are data types. Loops over an array recurse on the list or on the number of
-- rounds that are left. Only the doubling of a buffer's capacity runs on fuel, one more than the size that
-- is required, and LineReader/Growth shows that it is enough. What the outside answers, a clock, a socket,
-- a file system, an allocator or a USB transport, is a parameter.
--
-- Not modelled: the threads, the command line and the device glue of fpga-miner.c, HTTP, socket set-up and
-- JSON in util.c and api.c, the terminal, the USB and driver libraries libztex.c and libvu9p.c, the hash
-- functions under algo, the vendored library under compat/jansson, and stratum_diff_to_target, which
-- computes with doubles.
pub mod Prelude
pub mod SubmitMap
pub mod Transport
pub mod JobGuard
pub mod Protocol
pub mod Session
pub mod Result
pub mod Progress
pub mod Shutdown
pub mod LanePolicy
pub mod Ladder
pub mod Heartbeat
pub mod StateFile
pub mod SafeIo
pub mod Encoding
pub mod LineReader
pub mod Vu9pPolicy
pub mod Gate
pub mod Golden
pub mod JobEpoch
pub mod VariantFamily
