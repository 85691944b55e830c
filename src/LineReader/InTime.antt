-- ===== src/LineReader/InTime.antt =====
-- The rounds of a connection that delivers in time.
use suprminer_fpga.Prelude.{ℕ, ◌≤◌, ◌≡◌, Bool, false, List, ◌∷◌, ◌++◌, some, length}
use suprminer_fpga.LineReader.{
  line_max, Buffer, has_nul, Round, split_line, Stop, ready, go, on_clock,
}
use suprminer_fpga.LineReader.Received.{IsValid}
use suprminer_fpga.LineReader.Taken.{NoFeed}

-- What a round passes on.
abbrev GoesOn : Round → Buffer → List ℕ → ℕ → ℕ → Bool → ℕ → Type 0
GoesOn r b s d timeout allow_idle deadline =
    (size : ℕ) × (on_clock r b timeout allow_idle deadline r.now
      ≡ go (record { bytes = b.bytes ++ s; size = size }) d)
    × IsValid (record { bytes = b.bytes ++ s; size = size })

-- The loop ends with the front of the stream in the buffer.
abbrev Arrives : List ℕ → Stop × Buffer → Type 0
Arrives front r = (r.0 ≡ ready) × ((after : List ℕ) × (split_line r.1.bytes ≡ some (front, after)))

-- What may be said of the stream while the loop runs.
record Stream (front rest bytes more : List ℕ) : Type 0 where
  one_line : NoFeed front
  low : length front ≤ line_max
  joined : bytes ++ more ≡ front ++ (b'\n' ∷ rest)
  no_nul : has_nul (front ++ (b'\n' ∷ rest)) ≡ false
