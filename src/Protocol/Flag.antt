-- ===== src/Protocol/Flag.antt =====
-- BC3_ZTEX_FLAG_*: the bits of a status frame's flags.
use suprminer_fpga.Prelude.{ℕ}

abbrev pub head_valid : ℕ
head_valid = 0x01

abbrev pub fifo_full : ℕ
fifo_full = 0x02

abbrev pub active_valid : ℕ
active_valid = 0x04

abbrev pub protocol_error : ℕ
protocol_error = 0x08

abbrev pub paused : ℕ
paused = 0x10

abbrev pub quiesced : ℕ
quiesced = 0x20

abbrev pub pause_latched : ℕ
pause_latched = 0x40
