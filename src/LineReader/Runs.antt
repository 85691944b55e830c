-- ===== src/LineReader/Runs.antt =====
-- Runs of the line reader, and concrete cases of its theorems.
use suprminer_fpga.Prelude.{
  ℕ, ◌+◌, ◌<◌, ◌≤◌, ◌≡◌, ◌⊎◌, refl, Bool, true, false, List, [], ◌∷◌, none, some, arith,
}
use suprminer_fpga.LineReader.{
  buffer_max, Buffer, has_nul, grow, stratum_buffer_append, wait_ready, Receipt, again, received,
  Round, chomp, line, no_line, reconnect, stratum_recv_line_timeout, checked, take_line, late,
  on_receipt, over_long, split_line, behind, on_clock, on_wait, continue, appended, receive_loop,
  cut,
}
use suprminer_fpga.LineReader.Growth.{stratum_buffer_append_cases}
use suprminer_fpga.LineReader.Received.{IsValid}
use suprminer_fpga.LineReader.Stream.{Reads, stratum_recv_line_timeout-Reads}

abbrev empty : Buffer
empty = record { bytes = []; size = 2048 }

abbrev first_bytes : List ℕ
first_bytes = b'a' ∷ b'b' ∷ []

abbrev second_bytes : List ℕ
second_bytes = b'c' ∷ b'\r' ∷ b'\n' ∷ b'd' ∷ []

abbrev gives : ℕ → Receipt → Round
gives at receipt = record {
  now = some at;
  wait = wait_ready;
  receipt = receipt;
  same = true;
  reallocated = true;
}

abbrev rounds : List Round
rounds = gives 5 (received first_bytes) ∷ gives 6 (received second_bytes) ∷ []

abbrev slow_rounds : List Round
slow_rounds = gives 5 again ∷ gives 25 (received second_bytes) ∷ []

-- "ab" and "c\r\nd" give the line "abc", and "d" stays.
line_read :
    stratum_recv_line_timeout rounds empty 10 true true true true
    ≡ (line (b'a' ∷ b'b' ∷ b'c' ∷ []), record { bytes = b'd' ∷ []; size = 2048 })
unfolding stratum_recv_line_timeout take_line receive_loop split_line continue on_clock on_wait
    on_receipt checked stratum_buffer_append appended over_long behind cut chomp
line_read = refl

idle_time : (stratum_recv_line_timeout slow_rounds empty 10 true true true true).0 ≡ no_line
unfolding stratum_recv_line_timeout take_line receive_loop split_line continue on_clock on_wait
    on_receipt late
idle_time = refl

over_time : (stratum_recv_line_timeout slow_rounds empty 10 false true true true).0 ≡ reconnect
unfolding stratum_recv_line_timeout take_line receive_loop split_line continue on_clock on_wait
    on_receipt late
over_time = refl

grown : grow 4 2048 5000 ≡ some 8192
unfolding grow
grown = refl

empty-IsValid : IsValid empty
empty-IsValid = record { top = omega arith; room = omega arith; clean = refl }

stratum_buffer_append_cases_example :
    ((size : ℕ) × (stratum_buffer_append empty first_bytes true
        ≡ some (record { bytes = first_bytes; size = size }))
      × (2 < size)
      × (size ≤ buffer_max + 1)
      × (has_nul first_bytes ≡ false))
    ⊎ (stratum_buffer_append empty first_bytes true ≡ none)
      × ((has_nul first_bytes ≡ true) ⊎ ((buffer_max < 2) ⊎ (◌≡◌ {A = Bool} true false)))
stratum_buffer_append_cases_example =
    stratum_buffer_append_cases empty first_bytes true (omega arith)

stratum_recv_line_timeout-Reads_example :
    Reads rounds empty (stratum_recv_line_timeout rounds empty 10 true true true true)
stratum_recv_line_timeout-Reads_example =
    stratum_recv_line_timeout-Reads rounds empty 10 true true true true empty-IsValid

abbrev front : List ℕ
front = b'a' ∷ b'b' ∷ b'c' ∷ b'\r' ∷ []
