-- ===== src/LineReader/Taken.antt =====
-- The line that is taken out of the buffer, and the stream that it comes from.
use suprminer_fpga.Prelude.{
  ℕ, ◌<◌, ◌≤◌, ◌≡◌, ◌≢◌, ◌⊎◌, inl, inr, refl, ap, sym, ◌∙◌, Bool, false, ltb, ◌==◌, List, [], ◌∷◌,
  ◌++◌, Option, none, some, length, length-append, All, arith, Bool-cases, or_parts,
}
use suprminer_fpga.LineReader.{
  line_max, Buffer, has_nul, behind, split_line, chomp, Outcome, line, no_line, reconnect, pending,
  cut,
}
use suprminer_fpga.LineReader.Received.{IsValid, append_assoc, has_nul-append}

abbrev pub NoFeed : List ℕ → Type 0
NoFeed bytes = All (λ c. c ≢ b'\n') bytes

-- The bytes are a front without a line feed, a line feed, and the rest.
abbrev pub Splits : List ℕ → List ℕ → List ℕ → Type 0
Splits bytes front rest = (bytes ≡ front ++ (b'\n' ∷ rest)) × NoFeed front

-- What the search may answer.
abbrev pub Found : List ℕ → Option (List ℕ × List ℕ) → Type 0
Found bytes none = NoFeed bytes
Found bytes (some (front, rest)) = Splits bytes front rest

behind-Found :
    (c : ℕ) (cs : List ℕ) (found : Option (List ℕ × List ℕ))
    → c ≢ b'\n'
    → Found cs found
    → Found (c ∷ cs) (behind c found)
unfolding behind
behind-Found c cs none ne h = (ne, h)
behind-Found c cs (some (front, rest)) ne (all, no_feed) = (ap (◌∷◌ c) all, (ne, no_feed))

pub split_line-Found : (bytes : List ℕ) → Found bytes (split_line bytes)
unfolding split_line
split_line-Found [] = tt
split_line-Found (c ∷ cs) = elim (Bool-cases (c == b'\n')) [
  | inl feed ↦ rw feed (ap (λ x. x ∷ cs) (ground arith), tt)
  | inr other ↦ rw other (behind-Found c cs (split_line cs) (ground arith) (split_line-Found cs))
]

-- The end that `chomp` takes off.
pub chomp_end :
    (xs : List ℕ) → (end : List ℕ) × (xs ≡ chomp xs ++ end) × ((end ≡ []) ⊎ (end ≡ b'\r' ∷ []))
unfolding chomp
chomp_end [] = ([], refl, inl refl)
chomp_end (c ∷ []) = elim (Bool-cases (c == b'\r')) [
  | inl cr ↦ (b'\r' ∷ [], rw cr (ap (λ x. x ∷ []) (ground arith)), inr refl)
  | inr other ↦ ([], rw other refl, inl refl)
]
chomp_end (c ∷ d ∷ cs) = let (end, all, kind) = chomp_end (d ∷ cs) in (end, ap (◌∷◌ c) all, kind)

NoFeed-chomp : (xs : List ℕ) → NoFeed xs → NoFeed (chomp xs)
unfolding chomp
NoFeed-chomp [] h = tt
NoFeed-chomp (c ∷ []) h = elim (Bool-cases (c == b'\r')) [
  | inl cr ↦ rw cr tt
  | inr other ↦ rw other h
]
NoFeed-chomp (c ∷ d ∷ cs) (ne, h) = (ne, NoFeed-chomp (d ∷ cs) h)

-- A line that is taken out of a buffer: what it, its end and its line feed leave is the new buffer.
pub record Taken (b : Buffer) (text : List ℕ) (next : Buffer) : Type 0 where
  pub end : List ℕ
  pub end_kind : (end ≡ []) ⊎ (end ≡ b'\r' ∷ [])
  pub joined : b.bytes ≡ text ++ (end ++ (b'\n' ∷ next.bytes))
  pub no_feed : NoFeed text
  pub some_text : 0 < length text
  pub bounded : length text ≤ line_max
  pub no_nul : has_nul text ≡ false

-- What the outcome promises of the buffer that it was made from.
abbrev pub Promises : Buffer → Outcome × Buffer → Type 0
Promises b (line text, next) = Taken b text next × IsValid next
Promises b (no_line, next) = next ≡ b
Promises b (reconnect, next) = next ≡ b
Promises b (pending, next) = next ≡ b

nul_parts :
    (xs ys : List ℕ) → has_nul (xs ++ ys) ≡ false → (has_nul xs ≡ false) × (has_nul ys ≡ false)
nul_parts xs ys h = or_parts (has_nul xs) (has_nul ys) (sym (has_nul-append xs ys) ∙ h)

pub cut-Promises :
    (b : Buffer) (allocated : Bool) (found : Option (List ℕ × List ℕ))
    → IsValid b
    → Found b.bytes found
    → Promises b (cut b allocated found)
unfolding cut
cut-Promises b allocated none v h = refl
cut-Promises b allocated (some (front, rest)) v (all, no_feed) =
    let (end, parts, kind) = chomp_end front in
    let joined : b.bytes ≡ chomp front ++ (end ++ (b'\n' ∷ rest)) =
      all ∙ ap (λ x. x ++ (b'\n' ∷ rest)) parts ∙ append_assoc (chomp front) end (b'\n' ∷ rest) in
    let clean : has_nul (chomp front ++ (end ++ (b'\n' ∷ rest))) ≡ false =
      ap has_nul (sym joined) ∙ v.clean in
    let (clean_text, clean_more) = nul_parts (chomp front) (end ++ (b'\n' ∷ rest)) clean in
    let (clean_end, clean_rest) = nul_parts end (b'\n' ∷ rest) clean_more in
    let len = ap length joined in
    let len1 = length-append (chomp front) (end ++ (b'\n' ∷ rest)) in
    let len2 = length-append end (b'\n' ∷ rest) in
    let len3 = ap length parts ∙ length-append (chomp front) end in
    elim (Bool-cases (ltb line_max (length front))) [
      | inl long ↦ rw long refl
      | inr fits ↦ elim (Bool-cases (length (chomp front) == 0)) [
        | inl empty ↦ rw (fits, empty) refl
        | inr full ↦ elim (Bool-cases allocated) [
          | inr out ↦ rw (fits, full, out) refl
          | inl there ↦
              rw (fits, full, there)
                (
                  record {
                    end = end;
                    end_kind = kind;
                    joined = joined;
                    no_feed = NoFeed-chomp front no_feed;
                    some_text = ground arith;
                    bounded = ground (arith, len3);
                    no_nul = clean_text;
                  },
                  record {
                    top = v.top;
                    room = omega (arith, v.room, len, len1, len2);
                    clean = clean_rest;
                  },
                )
        ]
      ]
    ]
