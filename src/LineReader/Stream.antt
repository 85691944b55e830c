-- ===== src/LineReader/Stream.antt =====
-- The reader as a whole: the line that is returned, and the stream that it comes from.
use suprminer_fpga.Prelude.{
  ℕ, ◌≤◌, ◌<◌, ◌≡◌, ◌⊎◌, inl, inr, sym, subst, ◌∙◌, Bool, false, List, [], ◌∷◌, ◌++◌, length, arith,
  Bool-cases,
}
use suprminer_fpga.LineReader.{
  line_max, Buffer, has_nul, Round, split_line, Stop, ready, idle, failed, waiting, Outcome, line,
  no_line, reconnect, pending, take_line, stratum_recv_line_timeout,
}
use suprminer_fpga.LineReader.Received.{IsValid, chunks, Joined, receive_loop-Joined}
use suprminer_fpga.LineReader.Taken.{NoFeed, split_line-Found, Promises, cut-Promises}

-- A line that is returned: it, its end, its line feed and the bytes that are left are the bytes that were
-- there and those of a first part of the rounds, in order. It has no line feed and no NUL, and is neither
-- empty nor too long.
pub record Returned (rounds : List Round) (b : Buffer) (text : List ℕ) (next : Buffer)
    : Type 0 where
  pub used : List Round
  pub unused : List Round
  pub parts : rounds ≡ used ++ unused
  pub end : List ℕ
  pub end_kind : (end ≡ []) ⊎ (end ≡ b'\r' ∷ [])
  pub stream : b.bytes ++ chunks used ≡ text ++ (end ++ (b'\n' ∷ next.bytes))
  pub no_feed : NoFeed text
  pub some_text : 0 < length text
  pub bounded : length text ≤ line_max
  pub no_nul : has_nul text ≡ false

-- A valid buffer in each case, and a line only as above.
abbrev pub Reads : List Round → Buffer → Outcome × Buffer → Type 0
Reads rounds b (line text, next) = IsValid next × Returned rounds b text next
Reads rounds b (no_line, next) = IsValid next
Reads rounds b (reconnect, next) = IsValid next
Reads rounds b (pending, next) = IsValid next

cut-Reads :
    (rounds : List Round) (b full : Buffer) (r : Outcome × Buffer)
    → Joined rounds b (ready, full)
    → Promises full r
    → Reads rounds b r
cut-Reads rounds b full (line text, next) (v, joined) (taken, valid) =
    let (used, unused, parts, bytes) = joined (λ e. absurd (ground arith)) in
    (
      valid,
      record {
        used = used;
        unused = unused;
        parts = parts;
        end = taken.end;
        end_kind = taken.end_kind;
        stream = sym bytes ∙ taken.joined;
        no_feed = taken.no_feed;
        some_text = taken.some_text;
        bounded = taken.bounded;
        no_nul = taken.no_nul;
      },
    )
cut-Reads rounds b full (no_line, next) (v, joined) same = subst IsValid (sym same) v
cut-Reads rounds b full (reconnect, next) (v, joined) same = subst IsValid (sym same) v
cut-Reads rounds b full (pending, next) (v, joined) same = subst IsValid (sym same) v

take_line-Reads :
    (rounds : List Round) (b : Buffer) (same allocated : Bool) (r : Stop × Buffer)
    → Joined rounds b r
    → Reads rounds b (take_line same allocated r)
unfolding take_line
take_line-Reads rounds b same allocated (ready, full) joined = elim (Bool-cases same) [
  | inr other ↦ rw other joined.0
  | inl yes_same ↦ rw yes_same (
      cut-Reads rounds b full _ joined (
        cut-Promises full allocated (split_line full.bytes) joined.0 (split_line-Found full.bytes)))
]
take_line-Reads rounds b same allocated (idle, full) joined = joined.0
take_line-Reads rounds b same allocated (failed, full) joined = joined.0
take_line-Reads rounds b same allocated (waiting, full) joined = joined.0

-- From a valid buffer, whatever the rounds meet: the buffer stays valid, and a line that is returned is
-- the next one of the stream. With its end (a carriage return or nothing), its line feed and the bytes
-- that are left it is the bytes that were there and those of a first part of the rounds, in order; it has
-- no line feed and no NUL, and is neither empty nor too long.
pub stratum_recv_line_timeout-Reads :
    (rounds : List Round) (b : Buffer) (timeout : ℕ) (allow_idle usable same allocated : Bool)
    → IsValid b
    → Reads rounds b (stratum_recv_line_timeout rounds b timeout allow_idle usable same allocated)
unfolding stratum_recv_line_timeout
stratum_recv_line_timeout-Reads rounds b timeout allow_idle usable same allocated v =
    elim (Bool-cases usable) [
      | inr closed_one ↦ rw closed_one v
      | inl open_one ↦ rw open_one (
          take_line-Reads rounds b same allocated _
            (receive_loop-Joined rounds b timeout allow_idle 0 v))
    ]
