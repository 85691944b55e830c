-- ===== src/StateFile/Lines.antt =====
-- Texts and lines: how `fgets` reads back what was written line by line.
use suprminer_fpga.Prelude.{
  ℕ, zero, suc, ◌-◌, ◌≤◌, ◌<◌, ◌≡◌, refl, sym, ap, ◌∙◌, true, false, ◌||◌, leb, ◌==◌, List, [], ◌∷◌,
  ◌++◌, some, length, take, drop, All, arith, Bool-cases, inl, inr, length-append,
}
use mathlib.Core.List.{append_assoc}
use suprminer_fpga.StateFile.{
  line_chars, component_char, component_chars, safe_component, has_char, later_pieces, pieces,
  fgets_all, has_prefix, before, after, bytes_equal, join_lines,
}

module _ (c : ℕ) where
  pub before-append : (xs ys : List ℕ) → has_char c xs ≡ false → before c (xs ++ (c ∷ ys)) ≡ xs
  unfolding before has_char
  before-append [] ys h = ground arith
  before-append (x ∷ xs) ys h = ground (arith, before-append xs ys)

  pub after-append : (xs ys : List ℕ) → has_char c xs ≡ false → after c (xs ++ (c ∷ ys)) ≡ ys
  unfolding after has_char
  after-append [] ys h = ground arith
  after-append (x ∷ xs) ys h = ground (arith, after-append xs ys)

  pub has_char-append : (xs ys : List ℕ) → has_char c (xs ++ ys) ≡ (has_char c xs || has_char c ys)
  unfolding has_char
  has_char-append [] ys = refl
  has_char-append (x ∷ xs) ys = ground (arith, has_char-append xs ys)

  -- A component holds none of the separators.
  pub component_chars-has_char :
      (xs : List ℕ) → component_char c ≡ false → component_chars xs ≡ true → has_char c xs ≡ false
  unfolding component_chars has_char
  component_chars-has_char [] n h = refl
  component_chars-has_char (x ∷ xs) n h = ground (arith, component_chars-has_char xs n)

pub safe_component_parts :
    (xs : List ℕ) (maximum : ℕ)
    → safe_component (some xs) maximum ≡ true
    → (0 < length xs) × (length xs ≤ maximum) × (component_chars xs ≡ true)
unfolding safe_component
safe_component_parts xs maximum h = ground arith

pub has_prefix-append : (ks ys : List ℕ) → has_prefix ks (ks ++ ys) ≡ true
unfolding has_prefix
has_prefix-append [] ys = refl
has_prefix-append (k ∷ ks) ys = ground (arith, has_prefix-append ks ys)

-- A newline at the end of a line takes no part in a key without newlines.
pub has_prefix-newline :
    (ks body : List ℕ)
    → has_char 10 ks ≡ false
    → has_prefix ks (body ++ (10 ∷ [])) ≡ has_prefix ks body
unfolding has_prefix has_char
has_prefix-newline [] body h = refl
has_prefix-newline (k ∷ ks) [] h = ground arith
has_prefix-newline (k ∷ ks) (x ∷ xs) h = ground (arith, has_prefix-newline ks xs)

pub drop-append : (ks ys : List ℕ) → drop (length ks) (ks ++ ys) ≡ ys
drop-append [] ys = refl
drop-append (k ∷ ks) ys = drop-append ks ys

pub bytes_equal_refl : (xs : List ℕ) → bytes_equal xs xs ≡ true
unfolding bytes_equal
bytes_equal_refl [] = refl
bytes_equal_refl (x ∷ xs) = ground (arith, bytes_equal_refl xs)

pub take_all : {A : Type 0} (n : ℕ) (xs : List A) → length xs ≤ n → take n xs ≡ xs
take_all zero [] h = refl
take_all zero (x ∷ xs) h = absurd (omega arith)
take_all (suc n) [] h = refl
take_all (suc n) (x ∷ xs) h = ap (λ ys. x ∷ ys) (take_all n xs (omega arith))

-- A whole line that fits the buffer.
pub record IsLine (line : List ℕ) : Type 0 where
  pub body : List ℕ
  pub ended : line ≡ body ++ (10 ∷ [])
  pub one_newline : has_char 10 body ≡ false
  pub fits : length body < line_chars

pieces-line :
    (body rest : List ℕ) (room : ℕ)
    → has_char 10 body ≡ false
    → length body < room
    → pieces room (body ++ (10 ∷ rest)) ≡ (body ++ (10 ∷ []), later_pieces (pieces line_chars rest))
unfolding pieces has_char
pieces-line [] rest room h lt = refl
pieces-line (x ∷ xs) rest room h lt =
    let more = pieces-line xs rest (room - 1) (ground arith) (omega arith) in
    let inside : (x == 10 || leb room 1) ≡ false = ground arith in rw (inside, more) refl

later_pieces-line :
    (body : List ℕ) (ps : List (List ℕ))
    → later_pieces (body ++ (10 ∷ []), ps) ≡ (body ++ (10 ∷ [])) ∷ ps
unfolding later_pieces
later_pieces-line [] ps = refl
later_pieces-line (x ∷ xs) ps = refl

-- A line in front of the others is read first.
fgets_all-line :
    (l : List ℕ) (ls : List (List ℕ))
    → IsLine l
    → fgets_all (join_lines (l ∷ ls)) ≡ l ∷ fgets_all (join_lines ls)
unfolding fgets_all join_lines
fgets_all-line l ls line =
    let tail : List ℕ = join_lines ls in
    ap (λ x. later_pieces (pieces line_chars x))
      (ap (λ x. x ++ tail) line.ended ∙ append_assoc line.body (10 ∷ []) tail)
    ∙ ap later_pieces (pieces-line line.body tail line_chars line.one_newline line.fits)
    ∙ later_pieces-line line.body (later_pieces (pieces line_chars tail))
    ∙ ap (λ x. x ∷ later_pieces (pieces line_chars tail)) (sym line.ended)

fgets_all_empty : fgets_all [] ≡ []
unfolding fgets_all pieces later_pieces
fgets_all_empty = refl

-- Whole lines are read back one by one.
pub fgets_all-join_lines : (ls : List (List ℕ)) → All IsLine ls → fgets_all (join_lines ls) ≡ ls
unfolding join_lines
fgets_all-join_lines [] h = fgets_all_empty
fgets_all-join_lines (l ∷ ls) (line, rest) =
    fgets_all-line l ls line ∙ ap (λ xs. l ∷ xs) (fgets_all-join_lines ls rest)

-- A piece that holds a newline is a whole line.
abbrev pub LineIfEnded : List ℕ → Type 0
LineIfEnded p = has_char 10 p ≡ true → IsLine p

-- The same of a piece that is read with `room` left.
record IsPiece (room : ℕ) (p : List ℕ) : Type 0 where
  short : length p ≤ room
  whole :
      has_char 10 p ≡ true → (body : List ℕ) × (p ≡ body ++ (10 ∷ [])) × (has_char 10 body ≡ false)

piece_line : (p : List ℕ) → IsPiece line_chars p → LineIfEnded p
piece_line p q h =
    let (body, e, clear) = q.whole h in
    record {
      body = body;
      ended = e;
      one_newline = clear;
      fits = omega (arith, q.short, ap length e, length-append body (10 ∷ []));
    }

later_lines :
    (r : List ℕ × List (List ℕ))
    → IsPiece line_chars r.0
    → All LineIfEnded r.1
    → All LineIfEnded (later_pieces r)
unfolding later_pieces
later_lines ([], ps) p h = h
later_lines (b ∷ bs, ps) p h = (piece_line (b ∷ bs) p, h)

longer-IsPiece :
    (room b : ℕ) (p : List ℕ)
    → (b == 10) ≡ false
    → 1 < room
    → IsPiece (room - 1) p
    → IsPiece room (b ∷ p)
longer-IsPiece room b p nb lt q = record {
  short = omega (arith, q.short);
  whole = λ h.
      let (body, e, clear) = q.whole (unfold has_char in ground arith) in
      (b ∷ body, ap (λ x. b ∷ x) e, unfold has_char in ground arith);
}

pieces_lines :
    (bytes : List ℕ) (room : ℕ)
    → 0 < room
    → IsPiece room (pieces room bytes).0 × All LineIfEnded (pieces room bytes).1
unfolding pieces
pieces_lines [] room h =
    (record { short = omega arith; whole = λ e. absurd (unfold has_char in ground arith) }, tt)
pieces_lines (b ∷ bs) room h =
    let (first, more) = pieces_lines bs line_chars (omega arith) in
    elim (Bool-cases (b == 10)) [
      | inl e ↦ rw e (
        record {
          short = omega arith;
          whole = λ _. ([], ap (λ x. x ∷ []) (ground arith), unfold has_char in refl);
        },
        later_lines (pieces line_chars bs) first more,
      )
      | inr ne ↦ elim (Bool-cases (leb room 1)) [
        | inl full ↦
            rw (ne, full)
              (
                record {
                  short = omega arith;
                  whole = λ t. absurd (unfold has_char in ground arith);
                },
                later_lines (pieces line_chars bs) first more,
              )
        | inr wide ↦
            let (same, after_it) = pieces_lines bs (room - 1) (ground arith) in
            rw (ne, wide) (longer-IsPiece room b _ ne (ground arith) same, after_it)
      ]
    ]

pub fgets_all_lines : (bytes : List ℕ) → All LineIfEnded (fgets_all bytes)
unfolding fgets_all
fgets_all_lines bytes =
    let (first, more) = pieces_lines bytes line_chars (omega arith) in
    later_lines (pieces line_chars bytes) first more
