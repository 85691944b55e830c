-- ===== src/LineReader.antt =====
-- util.c: how a line of the pool is put together from what the socket gives. A buffer is the bytes in use
-- and the size that is allocated. What the clock, the socket and the allocator answer in a round of the
-- loop is a parameter, the record of that round.
pub mod Growth
pub mod Received
pub mod Taken
pub mod Stream
pub mod Delivery
pub mod InTime
mod Runs
use suprminer_fpga.Prelude.{
  ℕ, zero, suc, ◌+◌, ◌-◌, ◌*◌, ◌/◌, ◌^◌, Bool, true, false, not, ◌&&◌, ◌||◌, ltb, leb, ◌==◌,
  if◌then◌else◌, List, [], ◌∷◌, ◌++◌, Option, none, some, length, uint64_max,
}
use suprminer_fpga.JobGuard.{coinbase_max}

abbrev pub line_max : ℕ
line_max = coinbase_max * 2 + 65536

abbrev pub buffer_max : ℕ
buffer_max = line_max + 2048

abbrev pub rbufsize : ℕ
rbufsize = 2048

abbrev pub recvsize : ℕ
recvsize = rbufsize - 4

-- `sockbuf[0 .. sockbuf_used)` and `sockbuf_size`.
pub record Buffer : Type 0 where
  pub bytes : List ℕ
  pub size : ℕ

abbrev pub has_nul : List ℕ → Bool
has_nul [] = false
has_nul (c ∷ cs) = c == 0 || has_nul cs

-- The loop that doubles the capacity, on fuel.
unfoldable pub grow : ℕ → ℕ → ℕ → Option ℕ
grow zero capacity required = none
grow (suc fuel) capacity required =
    let rest = grow fuel (capacity * 2) required in
    if not (ltb capacity (required + 1))
    then some capacity
    else if ltb ((buffer_max + 1) / 2) capacity
    then some (buffer_max + 1)
    else rest

-- The bytes behind those in use, once the buffer has the size `capacity`.
unfoldable pub appended : Buffer → List ℕ → Option ℕ → Bool → Option Buffer
appended b s none reallocated = none
appended b s (some capacity) reallocated =
    if reallocated then some (record { bytes = b.bytes ++ s; size = capacity }) else none

-- `none` for `false`, which leaves the buffer as it is. `reallocated` is whether `realloc` gives memory.
unfoldable pub stratum_buffer_append : Buffer → List ℕ → Bool → Option Buffer
stratum_buffer_append b s reallocated =
    let used : ℕ = length b.bytes in
    let required : ℕ = used + length s in
    if has_nul s
    then none
    else if ltb buffer_max used || ltb (buffer_max - used) (length s)
    then none
    else if ltb buffer_max required
    then none
    else if ltb b.size (required + 1)
    then appended b s (grow (suc required) (if b.size == 0 then rbufsize else b.size) required)
        reallocated
    else appended b s (some b.size) true

pub data WaitResult : Type 0 where
  wait_ready wait_timeout wait_error : WaitResult

-- What `recv` gives; `again` is an interruption or a socket that would block.
pub data Receipt : Type 0 where
  closed again broken : Receipt
  received : List ℕ → Receipt

-- What a round of the loop meets; `same` is whether the connection is still the one that was read from.
pub record Round : Type 0 where
  pub now : Option ℕ
  pub wait : WaitResult
  pub receipt : Receipt
  pub same : Bool
  pub reallocated : Bool

unfoldable pub behind : ℕ → Option (List ℕ × List ℕ) → Option (List ℕ × List ℕ)
behind c none = none
behind c (some (front, rest)) = some (c ∷ front, rest)

-- What precedes the first '\n', and what follows it.
unfoldable pub split_line : List ℕ → Option (List ℕ × List ℕ)
split_line [] = none
split_line (c ∷ cs) =
    let rest = behind c (split_line cs) in if c == b'\n' then some ([], cs) else rest

abbrev pub is_found : Option (List ℕ × List ℕ) → Bool
is_found none = false
is_found (some r) = true

abbrev pub has_line : List ℕ → Bool
has_line bytes = is_found (split_line bytes)

pub data Stop : Type 0 where
  ready idle failed waiting : Stop

-- A round ends the loop, or passes on the buffer and the deadline.
pub data Step : Type 0 where
  stop : Stop → Buffer → Step
  go : Buffer → ℕ → Step

-- Where the time is over.
unfoldable pub late : Buffer → Bool → Step
late b allow_idle = stop (if allow_idle && length b.bytes == 0 then idle else failed) b

-- Whether the line that was found, or else what is there of it, is too long.
unfoldable pub over_long : List ℕ → Option (List ℕ × List ℕ) → Bool
over_long bytes (some r) = ltb line_max (length r.0)
over_long bytes none = ltb line_max (length bytes)

-- The test of the line's length behind an append.
unfoldable pub checked : Buffer → ℕ → Option Buffer → Step
checked b deadline none = stop failed b
checked b deadline (some next) =
    if over_long next.bytes (split_line next.bytes) then stop failed next else go next deadline

unfoldable pub on_receipt : Round → Buffer → ℕ → Receipt → Step
on_receipt r b deadline closed = stop failed b
on_receipt r b deadline broken = stop failed b
on_receipt r b deadline again = go b deadline
on_receipt r b deadline (received bytes) =
    if not r.same
    then stop failed b
    else checked b deadline (stratum_buffer_append b bytes r.reallocated)

unfoldable pub on_wait : Round → Buffer → Bool → ℕ → WaitResult → Step
on_wait r b allow_idle deadline wait_ready = on_receipt r b deadline r.receipt
on_wait r b allow_idle deadline wait_timeout = late b allow_idle
on_wait r b allow_idle deadline wait_error = stop failed b

-- A round from the deadline on; a deadline of 0 is not set yet.
unfoldable pub on_clock : Round → Buffer → ℕ → Bool → ℕ → Option ℕ → Step
on_clock r b timeout allow_idle deadline none = stop failed b
on_clock r b timeout allow_idle deadline (some now) =
    let set : ℕ = if deadline == 0 then now + timeout else deadline in
    if deadline == 0 && ltb (uint64_max - now) timeout
    then stop failed b
    else if leb set now
    then late b allow_idle
    else on_wait r b allow_idle set r.wait

unfoldable pub continue : Step → (Buffer → ℕ → Stop × Buffer) → Stop × Buffer
continue (stop s b) f = (s, b)
continue (go b deadline) f = f b deadline

-- The loop, over the rounds that come; `waiting` is a loop that waits for the next one.
unfoldable pub receive_loop : List Round → Buffer → ℕ → Bool → ℕ → Stop × Buffer
receive_loop [] b timeout allow_idle deadline = (if has_line b.bytes then ready else waiting, b)
receive_loop (r ∷ rounds) b timeout allow_idle deadline =
    let rest =
      continue (on_clock r b timeout allow_idle deadline r.now)
        (λ next set. receive_loop rounds next timeout allow_idle set) in
    if has_line b.bytes then (ready, b) else rest

-- A line without the '\r' at its end.
unfoldable pub chomp : List ℕ → List ℕ
chomp [] = []
chomp (c ∷ []) = if c == b'\r' then [] else c ∷ []
chomp (c ∷ d ∷ cs) = c ∷ chomp (d ∷ cs)

pub data Outcome : Type 0 where
  line : List ℕ → Outcome
  no_line reconnect pending : Outcome

-- What is taken out of the buffer.
unfoldable pub cut : Buffer → Bool → Option (List ℕ × List ℕ) → Outcome × Buffer
cut b allocated none = (reconnect, b)
cut b allocated (some (front, rest)) =
    if ltb line_max (length front)
    then (reconnect, b)
    else if length (chomp front) == 0
    then (reconnect, b)
    else if not allocated
    then (reconnect, b)
    else (line (chomp front), record b { bytes = rest })

unfoldable pub take_line : Bool → Bool → Stop × Buffer → Outcome × Buffer
take_line same allocated (ready, b) =
    if not same then (reconnect, b) else cut b allocated (split_line b.bytes)
take_line same allocated (idle, b) = (no_line, b)
take_line same allocated (failed, b) = (reconnect, b)
take_line same allocated (waiting, b) = (pending, b)

-- `usable` is whether the connection can be read from at the start, `same` whether it is still the same
-- one when the line is taken, and `allocated` whether `malloc` gives memory for it. `reconnect` is the
-- `failed` label, `no_line` a return of NULL without it.
unfoldable pub stratum_recv_line_timeout :
    List Round → Buffer → ℕ → Bool → Bool → Bool → Bool → Outcome × Buffer
stratum_recv_line_timeout rounds b timeout allow_idle usable same allocated =
    if not usable
    then (no_line, b)
    else take_line same allocated (receive_loop rounds b timeout allow_idle 0)
