-- ===== src/Heartbeat/Texts.antt =====
-- The texts that are accepted, against the tests.
use suprminer_fpga.Prelude.{
  ℕ, ◌≤◌, ◌<◌, ◌≡◌, ◌≢◌, ◌↔◌, refl, ap, Bool, true, false, not, ◌&&◌, ltb, leb, ◌==◌, List, [], ◌∷◌,
  Option, none, some, length, get_or, All, arith, inl, inr, Bool-cases,
}
use suprminer_fpga.Heartbeat.{
  canary_serial, canary_bitstream_max, seconds_loop, seconds_result, parse_canary_seconds,
  serial_loop, serial_is_safe, has_char, has_dots, bitstream_is_safe, bytes_equal, text_is,
}

seconds_result_iff :
    (text : List ℕ) (o : Option ℕ) (n : ℕ)
    → seconds_result text o ≡ some n
    → (length text ≡ 2) × (get_or text 0 0 ≡ b'2') × (get_or text 1 0 ≡ b'0') × (n ≡ 20)
unfolding seconds_result
seconds_result_iff text none n h = absurd (ground arith)
seconds_result_iff text (some parsed) n h = ground arith

two_bytes :
    (text : List ℕ) (a b : ℕ)
    → length text ≡ 2
    → get_or text 0 0 ≡ a
    → get_or text 1 0 ≡ b
    → text ≡ a ∷ b ∷ []
two_bytes [] a b h p q = absurd (omega arith)
two_bytes (x ∷ []) a b h p q = absurd (omega arith)
two_bytes (x ∷ y ∷ []) a b h p q = ground arith
two_bytes (x ∷ y ∷ z ∷ zs) a b h p q = absurd (omega arith)

-- The parser accepts one text only, "20", and answers 20.
pub parse_canary_seconds_iff :
    (text : Option (List ℕ)) (n : ℕ)
    → (parse_canary_seconds text ≡ some n) ↔ ((text ≡ some (b'2' ∷ b'0' ∷ [])) × (n ≡ 20))
parse_canary_seconds_iff text n = (there text, λ p. rw (p.0, p.1) accepted)
  where
    accepted : parse_canary_seconds (some (b'2' ∷ b'0' ∷ [])) ≡ some 20
    accepted = unfold parse_canary_seconds seconds_result seconds_loop in refl

    there :
        (text : Option (List ℕ))
        → parse_canary_seconds text ≡ some n
        → (text ≡ some (b'2' ∷ b'0' ∷ [])) × (n ≡ 20)
    there none h = absurd (unfold parse_canary_seconds in ground arith)
    there (some []) h = absurd (unfold parse_canary_seconds in ground arith)
    there (some (c ∷ cs)) h =
        let (len, a, b, e) =
          seconds_result_iff (c ∷ cs) (seconds_loop (c ∷ cs) 0) n
            (unfold parse_canary_seconds in h) in
        (ap some (two_bytes (c ∷ cs) b'2' b'0' len a b), e)

bytes_equal_iff : (a b : List ℕ) → (bytes_equal a b ≡ true) ↔ (a ≡ b)
unfolding bytes_equal
bytes_equal_iff [] [] = ground arith
bytes_equal_iff [] (y ∷ ys) = ground arith
bytes_equal_iff (x ∷ xs) [] = ground arith
bytes_equal_iff (x ∷ xs) (y ∷ ys) = ground (arith, bytes_equal_iff xs ys)

pub text_is_iff : (a : Option (List ℕ)) (b : List ℕ) → (text_is a b ≡ true) ↔ (a ≡ some b)
unfolding text_is
text_is_iff none b = ground arith
text_is_iff (some a) b = ground (arith, bytes_equal_iff a b)

pub canary_serial_safe : serial_is_safe (some canary_serial) ≡ true
unfolding serial_is_safe serial_loop
canary_serial_safe = refl

-- A file name without separators and without two dots in a row.
pub data HasDots : List ℕ → Type 0 where
  dots : (xs : List ℕ) → HasDots (b'.' ∷ b'.' ∷ xs)
  behind : (x : ℕ) {xs : List ℕ} → HasDots xs → HasDots (x ∷ xs)

pub record IsBareName (name : List ℕ) : Type 0 where
  pub nonempty : 0 < length name
  pub short : length name ≤ canary_bitstream_max
  pub no_slash : All (λ c. c ≢ b'/') name
  pub no_backslash : All (λ c. c ≢ 92) name
  pub no_dots : HasDots name → ⊥

has_char_iff : (c : ℕ) (xs : List ℕ) → (has_char c xs ≡ false) ↔ All (λ x. x ≢ c) xs
unfolding has_char
has_char_iff c [] = ground arith
has_char_iff c (x ∷ xs) = ground (arith, has_char_iff c xs)

has_dots_found : (xs : List ℕ) → HasDots xs → has_dots xs ≡ true
unfolding has_dots
has_dots_found _ (dots xs) = refl
has_dots_found _ (behind x {xs} h) = ground (arith, has_dots_found xs h)

dots_here : (x : ℕ) (xs : List ℕ) → (x == b'.' && get_or xs 0 0 == b'.') ≡ true → HasDots (x ∷ xs)
dots_here x [] h = absurd (ground arith)
dots_here x (y ∷ ys) h =
    let a : x ≡ b'.' = ground arith in let b : y ≡ b'.' = ground arith in rw (a, b) (dots ys)

HasDots-found : (xs : List ℕ) → has_dots xs ≡ true → HasDots xs
HasDots-found [] h = absurd (unfold has_dots in ground arith)
HasDots-found (x ∷ xs) h = elim (Bool-cases (x == b'.' && get_or xs 0 0 == b'.')) [
  | inl here ↦ dots_here x xs here
  | inr away ↦ behind x (HasDots-found xs (unfold has_dots in ground arith))
]

has_dots_iff : (xs : List ℕ) → (has_dots xs ≡ false) ↔ (HasDots xs → ⊥)
has_dots_iff xs = (
  λ e h. ground (arith, has_dots_found xs h),
  λ no_dots. elim (Bool-cases (has_dots xs)) [
    | inl e ↦ absurd (no_dots (HasDots-found xs e))
    | inr e ↦ e
  ],
)

-- The accepted bitstream names are the bare file names.
pub bitstream_is_safe_iff :
    (name : List ℕ) → (bitstream_is_safe (some name) ≡ true) ↔ IsBareName name
unfolding bitstream_is_safe
bitstream_is_safe_iff name =
    let slash = has_char_iff b'/' name in
    let backslash = has_char_iff 92 name in
    let two_dots = has_dots_iff name in
    (
      λ e. record {
        nonempty = ground arith;
        short = ground arith;
        no_slash = slash.0 (ground arith);
        no_backslash = backslash.0 (ground arith);
        no_dots = two_dots.0 (ground arith);
      },
      λ p.
          let a = slash.1 p.no_slash in
          let b = backslash.1 p.no_backslash in
          let c = two_dots.1 p.no_dots in
          all_five (length name) (has_char b'/' name) (has_char 92 name) (has_dots name) p.nonempty
            p.short a b c,
    )
  where
    all_five :
        (n : ℕ) (a b c : Bool)
        → 0 < n
        → n ≤ canary_bitstream_max
        → a ≡ false
        → b ≡ false
        → c ≡ false
        → (ltb 0 n && leb n canary_bitstream_max && not a && not b && not c) ≡ true
    all_five n a b c p q x y z = ground arith
