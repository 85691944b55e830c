-- ===== src/LineReader/Received.antt =====
-- What the line reader keeps and returns: no byte of the stream is lost, doubled or moved.
use suprminer_fpga.Prelude.{
  ℕ, ◌+◌, ◌<◌, ◌≤◌, ◌≡◌, ◌≢◌, inl, inr, refl, ap, sym, ◌∙◌, Bool, false, ◌&&◌, ◌||◌, ltb, leb, ◌==◌,
  if◌then◌else◌, List, [], ◌∷◌, ◌++◌, Option, none, some, length, arith, Bool-cases, uint64_max,
  ◌-◌,
}
use suprminer_fpga.LineReader.{
  buffer_max, Buffer, has_nul, stratum_buffer_append, WaitResult, wait_ready, wait_timeout,
  wait_error, Receipt, closed, again, broken, received, Round, split_line, has_line, Stop, ready,
  idle, failed, waiting, Step, stop, go, late, over_long, checked, on_receipt, on_wait, on_clock,
  continue, receive_loop,
}
use suprminer_fpga.LineReader.Growth.{stratum_buffer_append_cases}

-- Room for the bytes and a NUL, in at most the largest size, and no NUL among the bytes.
pub record IsValid (b : Buffer) : Type 0 where
  pub top : b.size ≤ buffer_max + 1
  pub room : length b.bytes < b.size
  pub clean : has_nul b.bytes ≡ false

-- The bytes that a round, and a list of rounds, put in the buffer.
abbrev pub chunk : Receipt → List ℕ
chunk closed = []
chunk again = []
chunk broken = []
chunk (received bytes) = bytes

abbrev pub chunks : List Round → List ℕ
chunks [] = []
chunks (r ∷ rounds) = chunk r.receipt ++ chunks rounds

pub append_assoc : (xs ys zs : List ℕ) → (xs ++ ys) ++ zs ≡ xs ++ (ys ++ zs)
append_assoc [] ys zs = refl
append_assoc (x ∷ xs) ys zs = ap (◌∷◌ x) (append_assoc xs ys zs)

pub append_nil : (xs : List ℕ) → xs ++ [] ≡ xs
append_nil [] = refl
append_nil (x ∷ xs) = ap (◌∷◌ x) (append_nil xs)

pub has_nul-append : (xs ys : List ℕ) → has_nul (xs ++ ys) ≡ (has_nul xs || has_nul ys)
has_nul-append [] ys = refl
has_nul-append (x ∷ xs) ys = ground (arith, has_nul-append xs ys)

-- What a step may be: a failure, an idle end with an empty buffer, or the buffer with the chunk behind it.
abbrev Kept : Round → Buffer → Step → Type 0
Kept r b (stop failed next) = IsValid next
Kept r b (stop idle next) = (next ≡ b) × IsValid next
Kept r b (stop ready next) = ⊥
Kept r b (stop waiting next) = ⊥
Kept r b (go next deadline) = IsValid next × (next.bytes ≡ b.bytes ++ chunk r.receipt)

late-Kept : (r : Round) (b : Buffer) (allow_idle : Bool) → IsValid b → Kept r b (late b allow_idle)
unfolding late
late-Kept r b allow_idle v = elim (Bool-cases (allow_idle && length b.bytes == 0)) [
  | inl i ↦ rw i (refl, v)
  | inr f ↦ rw f v
]

checked-Kept :
    (r : Round) (b : Buffer) (deadline : ℕ) (s : List ℕ) (reallocated : Bool)
    → IsValid b
    → r.receipt ≡ received s
    → Kept r b (checked b deadline (stratum_buffer_append b s reallocated))
unfolding checked
checked-Kept r b deadline s reallocated v e =
    elim (stratum_buffer_append_cases b s reallocated v.top) [
      | inr (refused, why) ↦ rw refused v
      | inl (size, done, room, top, clean) ↦
          let next : Buffer = record { bytes = b.bytes ++ s; size = size } in
          let valid : IsValid next = record {
            top = top;
            room = room;
            clean = rw (has_nul-append b.bytes s, v.clean, clean) refl;
          } in
          elim (Bool-cases (over_long next.bytes (split_line next.bytes))) [
            | inl over ↦ rw (done, over) valid
            | inr fine ↦ rw (done, fine, e) (valid, refl)
          ]
    ]

receipt-Kept :
    (r : Round) (b : Buffer) (deadline : ℕ) (receipt : Receipt)
    → IsValid b
    → r.receipt ≡ receipt
    → Kept r b (on_receipt r b deadline receipt)
unfolding on_receipt
receipt-Kept r b deadline closed v e = v
receipt-Kept r b deadline broken v e = v
receipt-Kept r b deadline again v e = rw e (v, sym (append_nil b.bytes))
receipt-Kept r b deadline (received s) v e = elim (Bool-cases r.same) [
  | inr other ↦ rw other v
  | inl same ↦ rw same (checked-Kept r b deadline s r.reallocated v e)
]

wait-Kept :
    (r : Round) (b : Buffer) (allow_idle : Bool) (deadline : ℕ) (wait : WaitResult)
    → IsValid b
    → Kept r b (on_wait r b allow_idle deadline wait)
unfolding on_wait
wait-Kept r b allow_idle deadline wait_ready v = receipt-Kept r b deadline r.receipt v refl
wait-Kept r b allow_idle deadline wait_timeout v = late-Kept r b allow_idle v
wait-Kept r b allow_idle deadline wait_error v = v

clock-Kept :
    (r : Round) (b : Buffer) (timeout : ℕ) (allow_idle : Bool) (deadline : ℕ) (now : Option ℕ)
    → IsValid b
    → Kept r b (on_clock r b timeout allow_idle deadline now)
unfolding on_clock
clock-Kept r b timeout allow_idle deadline none v = v
clock-Kept r b timeout allow_idle deadline (some now) v =
    let set : ℕ = if deadline == 0 then now + timeout else deadline in
    elim (Bool-cases (deadline == 0 && ltb (uint64_max - now) timeout)) [
      | inl over ↦ rw over v
      | inr fine ↦ elim (Bool-cases (leb set now)) [
        | inl ended ↦ rw (fine, ended) (late-Kept r b allow_idle v)
        | inr on ↦ rw (fine, on) (wait-Kept r b allow_idle set r.wait v)
      ]
    ]

-- What the loop may end with: a valid buffer, and unless it failed, the bytes of a first part of the
-- rounds behind those that were there.
abbrev pub Joined : List Round → Buffer → Stop × Buffer → Type 0
Joined rounds b r =
    IsValid r.1
    × (r.0 ≢ failed
        → (used : List Round) × (rest : List Round) × (rounds ≡ used ++ rest)
          × (r.1.bytes ≡ b.bytes ++ chunks used))

unmoved : (rounds : List Round) (b : Buffer) (s : Stop) → IsValid b → Joined rounds b (s, b)
unmoved rounds b s v = (v, λ ne. ([], rounds, refl, sym (append_nil b.bytes)))

continue-Joined :
    (r : Round) (rounds : List Round) (b : Buffer) (step : Step) (f : Buffer → ℕ → Stop × Buffer)
    → Kept r b step
    → ((next : Buffer) (deadline : ℕ) → IsValid next → Joined rounds next (f next deadline))
    → Joined (r ∷ rounds) b (continue step f)
unfolding continue
continue-Joined r rounds b (stop failed next) f kept more = (kept, λ ne. absurd (ne refl))
continue-Joined r rounds b (stop idle next) f (same, v) more =
    (v, λ ne. ([], r ∷ rounds, refl, ap (λ x. x.bytes) same ∙ sym (append_nil b.bytes)))
continue-Joined r rounds b (stop ready next) f kept more = elim kept [ ]
continue-Joined r rounds b (stop waiting next) f kept more = elim kept [ ]
continue-Joined r rounds b (go next deadline) f (v, bytes) more =
    let (valid, joined) = more next deadline v in
    (
      valid,
      λ ne.
          let (used, rest, all, kept) = joined ne in
          (
            r ∷ used,
            rest,
            ap (◌∷◌ r) all,
            kept
                ∙ ap (λ x. x ++ chunks used) bytes
                ∙ append_assoc b.bytes (chunk r.receipt) (chunks used),
          ),
    )

pub receive_loop-Joined :
    (rounds : List Round) (b : Buffer) (timeout : ℕ) (allow_idle : Bool) (deadline : ℕ)
    → IsValid b
    → Joined rounds b (receive_loop rounds b timeout allow_idle deadline)
unfolding receive_loop
receive_loop-Joined [] b timeout allow_idle deadline v = unmoved [] b _ v
receive_loop-Joined (r ∷ rounds) b timeout allow_idle deadline v =
    elim (Bool-cases (has_line b.bytes)) [
      | inl there ↦ rw there (unmoved (r ∷ rounds) b ready v)
      | inr none_yet ↦ rw none_yet (
          continue-Joined r rounds b (on_clock r b timeout allow_idle deadline r.now) _
            (clock-Kept r b timeout allow_idle deadline r.now v)
            (λ next set w. receive_loop-Joined rounds next timeout allow_idle set w))
    ]
