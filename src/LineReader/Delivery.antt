-- ===== src/LineReader/Delivery.antt =====
-- A line that the pool sends in time is returned, however the stream is cut into chunks.
use suprminer_fpga.Prelude.{
  ℕ, zero, suc, ◌+◌, ◌≤◌, ◌<◌, ◌≡◌, ◌⊎◌, inl, inr, refl, ap, sym, subst, ◌∙◌, true, false, leb,
  ◌==◌, ◌≢◌, List, [], ◌∷◌, ◌++◌, Option, none, some, length, get_or, All-get_or, arith, Bool-cases,
}
use suprminer_fpga.LineReader.{
  line_max, recvsize, wait_ready, received, Round, behind, split_line, over_long,
}
use suprminer_fpga.LineReader.Taken.{NoFeed, Found, split_line-Found}

pub split_line-append :
    (front rest : List ℕ) → NoFeed front → split_line (front ++ (b'\n' ∷ rest)) ≡ some (front, rest)
unfolding split_line behind
split_line-append [] rest h = refl
split_line-append (c ∷ front) rest (ne, h) =
    let other : (c == b'\n') ≡ false = ground arith in
    rw (other, split_line-append front rest h) refl

-- What the search answers where more bytes follow.
abbrev Followed : Option (List ℕ × List ℕ) → List ℕ → Option (List ℕ × List ℕ) → Type 0
Followed none more later = Unit {0}
Followed (some (front, rest)) more later = later ≡ some (front, rest ++ more)

behind-Followed :
    (c : ℕ) (more : List ℕ) (found later : Option (List ℕ × List ℕ))
    → Followed found more later
    → Followed (behind c found) more (behind c later)
unfolding behind
behind-Followed c more none later h = tt
behind-Followed c more (some (front, rest)) later h = rw h refl

split_line-Followed :
    (bytes more : List ℕ) → Followed (split_line bytes) more (split_line (bytes ++ more))
unfolding split_line
split_line-Followed [] more = tt
split_line-Followed (c ∷ cs) more = elim (Bool-cases (c == b'\n')) [
  | inl feed ↦ rw feed refl
  | inr other ↦ rw other (
      behind-Followed c more (split_line cs) (split_line (cs ++ more))
        (split_line-Followed cs more))
]

abbrev front_of : Option (List ℕ × List ℕ) → List ℕ
front_of none = []
front_of (some (front, rest)) = front

get_or-front : (front rest : List ℕ) → get_or (front ++ (b'\n' ∷ rest)) (length front) 0 ≡ b'\n'
get_or-front [] rest = refl
get_or-front (c ∷ front) rest = get_or-front front rest

get_or-before :
    (bytes more : List ℕ) (i : ℕ) → i < length bytes → get_or (bytes ++ more) i 0 ≡ get_or bytes i 0
get_or-before [] more i h = absurd (omega arith)
get_or-before (c ∷ bytes) more zero h = refl
get_or-before (c ∷ bytes) more (suc i) h = get_or-before bytes more i (omega arith)

-- Bytes of the stream without a line feed are a part of its front.
pub none_short :
    (bytes more front rest : List ℕ)
    → NoFeed bytes
    → bytes ++ more ≡ front ++ (b'\n' ∷ rest)
    → length bytes ≤ length front
none_short bytes more front rest h e = elim (Bool-cases (leb (length bytes) (length front))) [
  | inl short ↦ ground arith
  | inr long ↦
      let lt : length front < length bytes = ground arith in
      absurd (
        All-get_or (λ c. c ≢ b'\n') bytes (length front) 0 h (omega arith)
          (sym (get_or-before bytes more (length front) lt)
            ∙ ap (λ x. get_or x (length front) 0) e
            ∙ get_or-front front rest))
]

-- A front of the stream is not too long for the reader, and a line feed in it is the first one.
pub front-fine :
    (bytes more front rest : List ℕ) (found : Option (List ℕ × List ℕ))
    → NoFeed front
    → length front ≤ line_max
    → bytes ++ more ≡ front ++ (b'\n' ∷ rest)
    → split_line bytes ≡ found
    → (over_long bytes found ≡ false)
      × (found ≡ none ⊎ ((more_rest : List ℕ) × (found ≡ some (front, more_rest))))
unfolding over_long
front-fine bytes more front rest none h low e f =
    let short =
      none_short bytes more front rest (subst (Found bytes) f (split_line-Found bytes)) e in
    (ground arith, inl refl)
front-fine bytes more front rest (some (first, after)) h low e f =
    let later : split_line (bytes ++ more) ≡ some (first, after ++ more) =
      subst (λ x. Followed x more (split_line (bytes ++ more))) f
        (split_line-Followed bytes more) in
    let same : first ≡ front =
      ap front_of (sym later ∙ ap split_line e ∙ split_line-append front rest h) in
    (rw same (ground arith), inr (after, ap (λ x. some (x, after)) same))

-- A round that ends before the deadline `d` with bytes of the pool.
pub record Timely (d : ℕ) (r : Round) : Type 0 where
  pub at : ℕ
  pub now_is : r.now ≡ some at
  pub in_time : at < d
  pub is_ready : r.wait ≡ wait_ready
  pub bytes : List ℕ
  pub receipt_is : r.receipt ≡ received bytes
  pub part : length bytes ≤ recvsize
  pub same_one : r.same ≡ true
  pub memory : r.reallocated ≡ true

abbrev pub clock_of : Option ℕ → ℕ
clock_of none = 0
clock_of (some at) = at

-- The deadline is `d`, or it is to be set, and the first round sets it to `d`.
abbrev pub Started : ℕ → ℕ → ℕ → List Round → Type 0
Started deadline timeout d [] = Unit {0}
Started deadline timeout d (r ∷ rounds) =
    (deadline ≡ d) ⊎ (deadline ≡ 0) × (clock_of r.now + timeout ≡ d)
