-- ===== src/StateFile/RoundTrip.antt =====
-- A state that was saved is found again.
use suprminer_fpga.Prelude.{
  ℕ, ◌<◌, ◌≡◌, refl, sym, ap, ◌∙◌, Bool, true, false, if◌then◌else◌, List, [], ◌∷◌, ◌++◌, Option,
  none, some, length, All, arith, Bool-cases, inl, inr, length-append,
}
use mathlib.Core.List.{append_assoc}
use suprminer_fpga.StateFile.{
  line_chars, safe_component, has_char, has_prefix, before, line_value, line_says, lookup_loop,
  record_line, save_loop, component_chars,
}
use suprminer_fpga.StateFile.Lines.{
  before-append, after-append, has_char-append, component_chars-has_char, safe_component_parts,
  has_prefix-append, has_prefix-newline, drop-append, bytes_equal_refl, IsLine, LineIfEnded,
}

-- What the arguments of one FPGA must be for its line to be one line with one value.
pub record IsEntry (key family state : List ℕ) : Type 0 where
  pub key_clear : has_char 10 key ≡ false
  pub key_short : length key < 64
  pub family_safe : safe_component (some family) 63 ≡ true
  pub state_safe : safe_component (some state) 63 ≡ true

ends_in_newline : (line : List ℕ) → IsLine line → has_char 10 line ≡ true
unfolding has_char
ends_in_newline line l =
    ap (has_char 10) l.ended ∙ ground (arith, has_char-append 10 l.body (10 ∷ []))

-- A line without the newline that ends it.
abbrev body_of : List ℕ → List ℕ → List ℕ → List ℕ
body_of key family state = key ++ (family ++ (b'/' ∷ state))

record_line-body :
    (key family state : List ℕ)
    → record_line key family state ≡ body_of key family state ++ (10 ∷ [])
unfolding record_line
record_line-body key family state = sym (
    append_assoc key (family ++ (b'/' ∷ state)) (10 ∷ [])
    ∙ ap (λ x. key ++ x) (append_assoc family (b'/' ∷ state) (10 ∷ [])))

module _ (key family state : List ℕ) (entry : IsEntry key family state) where
  family_clear : (c : ℕ) → component_chars (c ∷ []) ≡ false → has_char c family ≡ false
  family_clear c h =
      component_chars-has_char c family (unfold component_chars in ground arith)
        (safe_component_parts family 63 entry.family_safe).2

  state_clear : (c : ℕ) → component_chars (c ∷ []) ≡ false → has_char c state ≡ false
  state_clear c h =
      component_chars-has_char c state (unfold component_chars in ground arith)
        (safe_component_parts state 63 entry.state_safe).2

  body_clear : has_char 10 (body_of key family state) ≡ false
  body_clear =
      let f = family_clear 10 (unfold component_chars in refl) in
      let s = state_clear 10 (unfold component_chars in refl) in
      let a = has_char-append 10 key (family ++ (b'/' ∷ state)) in
      let b = has_char-append 10 family (b'/' ∷ state) in
      unfold has_char in ground (arith, entry.key_clear)

  body_short : length (body_of key family state) < line_chars
  body_short = omega (
    arith,
    length-append key (family ++ (b'/' ∷ state)),
    length-append family (b'/' ∷ state),
    (safe_component_parts family 63 entry.family_safe).1,
    (safe_component_parts state 63 entry.state_safe).1,
    entry.key_short,
  )

  record_line-IsLine : IsLine (record_line key family state)
  record_line-IsLine = record {
    body = body_of key family state;
    ended = record_line-body key family state;
    one_newline = body_clear;
    fits = body_short;
  }

  line_value-entry :
      (size : ℕ)
      → length state < size
      → line_value family size (family ++ (b'/' ∷ state)) ≡ some (some state)
  unfolding line_value
  line_value-entry size h =
      let f = family_clear b'/' (unfold component_chars in refl) in
      let s = state_clear b'/' (unfold component_chars in refl) in
      let head = before-append b'/' family state f in
      let tail = after-append b'/' family state f in
      let slash : has_char b'/' (family ++ (b'/' ∷ state)) ≡ true =
        unfold has_char in ground (arith, has_char-append b'/' family (b'/' ∷ state)) in
      rw (slash, head, tail, s, entry.family_safe, entry.state_safe, bytes_equal_refl family)
        (ground arith)

  line_says-own :
      (size : ℕ)
      → length state < size
      → line_says key family size (before 10 (record_line key family state))
        ≡ some (some (some state))
  unfolding line_says
  line_says-own size h =
      let rest : List ℕ = family ++ (b'/' ∷ state) in
      let text : before 10 (record_line key family state) ≡ key ++ rest =
        ap (before 10) (record_line-body key family state)
        ∙ before-append 10 (body_of key family state) [] body_clear in
      rw (text, has_prefix-append key rest, drop-append key rest, line_value-entry size h) refl

  -- The entry's own line is where the lookup finds its value.
  lookup_loop-own :
      (size : ℕ) (lines : List (List ℕ)) (found : Option (List ℕ))
      → length state < size
      → lookup_loop key family size (record_line key family state ∷ lines) false found
        ≡ lookup_loop key family size lines true (some state)
  unfolding lookup_loop
  lookup_loop-own size lines found h =
      rw (ends_in_newline _ record_line-IsLine, line_says-own size h) refl

  line_says-other :
      (size : ℕ) (line : List ℕ)
      → IsLine line
      → has_prefix key line ≡ false
      → line_says key family size (before 10 line) ≡ none
  unfolding line_says
  line_says-other size line l other =
      let text : before 10 line ≡ l.body =
        ap (before 10) l.ended ∙ before-append 10 l.body [] l.one_newline in
      let differs : has_prefix key l.body ≡ false =
        sym (has_prefix-newline key l.body entry.key_clear)
        ∙ ap (has_prefix key) (sym l.ended)
        ∙ other in
      rw (text, differs) refl

  -- A line of another key is passed over.
  lookup_loop-other :
      (size : ℕ) (line : List ℕ) (lines : List (List ℕ)) (matched : Bool) (found : Option (List ℕ))
      → IsLine line
      → has_prefix key line ≡ false
      → lookup_loop key family size (line ∷ lines) matched found
        ≡ lookup_loop key family size lines matched found
  unfolding lookup_loop
  lookup_loop-other size line lines matched found l other =
      rw (ends_in_newline line l, line_says-other size line l other) refl

  -- How the reading loop of `save` passes a line.
  data Passes (line : List ℕ) (lines : List (List ℕ)) (found : Bool) (out : List (List ℕ))
      (f : Bool) : Type 0 where
    kept :
        (rest : List (List ℕ))
        → has_char 10 line ≡ true
        → has_prefix key line ≡ false
        → save_loop key (record_line key family state) lines found ≡ some (rest, f)
        → out ≡ line ∷ rest
        → Passes line lines found out f
    replaced :
        (rest : List (List ℕ))
        → found ≡ false
        → save_loop key (record_line key family state) lines true ≡ some (rest, f)
        → out ≡ record_line key family state ∷ rest
        → Passes line lines found out f

  save_loop-cons :
      (line : List ℕ) (lines : List (List ℕ)) (found : Bool) (out : List (List ℕ)) (f : Bool)
      → save_loop key (record_line key family state) (line ∷ lines) found ≡ some (out, f)
      → Passes line lines found out f
  unfolding save_loop
  save_loop-cons line lines found out f h = elim (Bool-cases (has_char 10 line)) [
    | inr open_end ↦ absurd (ground (arith, open_end))
    | inl ended ↦ elim (Bool-cases (has_prefix key line)) [
      | inr other ↦
          keeps (save_loop key (record_line key family state) lines found) refl ended other
      | inl own ↦ replaces (save_loop key (record_line key family state) lines true) refl ended own
    ]
  ]
    where
      keeps :
          (o : Option (List (List ℕ) × Bool))
          → save_loop key (record_line key family state) lines found ≡ o
          → has_char 10 line ≡ true
          → has_prefix key line ≡ false
          → Passes line lines found out f
      keeps none e ended other = absurd (ground (arith, e, ended, other, h))
      keeps (some (rest, g)) e ended other =
          let same : (line ∷ rest ≡ out) × (g ≡ f) = ground (arith, e, ended, other, h) in
          kept rest ended other (e ∙ ap (λ b. some (rest, b)) same.1) (sym same.0)

      replaces :
          (o : Option (List (List ℕ) × Bool))
          → save_loop key (record_line key family state) lines true ≡ o
          → has_char 10 line ≡ true
          → has_prefix key line ≡ true
          → Passes line lines found out f
      replaces none e ended own = absurd (ground (arith, e, ended, own, h))
      replaces (some (rest, g)) e ended own =
          let same : (record_line key family state ∷ rest ≡ out) × (g ≡ f) × (found ≡ false) =
            ground (arith, e, ended, own, h) in
          replaced rest same.2 (e ∙ ap (λ b. some (rest, b)) same.1) (sym same.0)

  -- Behind the line that was replaced no other line of the key is left.
  save_loop_rest :
      (size : ℕ) (lines out : List (List ℕ)) (f : Bool) (id : Option (List ℕ))
      → All LineIfEnded lines
      → save_loop key (record_line key family state) lines true ≡ some (out, f)
      → (f ≡ true) × All IsLine out × (lookup_loop key family size out true id ≡ some id)
  save_loop_rest size [] out f id ls h =
      let same : ([] ≡ out) × (true ≡ f) = unfold save_loop in ground arith in
      rw (← same.0) (sym same.1, tt, unfold lookup_loop in refl)
  save_loop_rest size (line ∷ lines) out f id (l, ls) h =
      elim (save_loop-cons line lines true out f h) [
        | replaced rest bad _ _ ↦ absurd (ground arith)
        | kept rest ended other e o ↦
            let (yes_found, whole, looked) = save_loop_rest size lines rest f id ls e in
            rw o (
              yes_found,
              (l ended, whole),
              lookup_loop-other size line rest true id (l ended) other ∙ looked,
            )
      ]

  abbrev pub written : List (List ℕ) → Bool → List (List ℕ)
  written out f = if f then out else out ++ (record_line key family state ∷ [])

  -- The lines that are written are whole lines, and the lookup finds the state in them.
  pub save_loop_found :
      (size : ℕ) (lines out : List (List ℕ)) (f : Bool)
      → length state < size
      → All LineIfEnded lines
      → save_loop key (record_line key family state) lines false ≡ some (out, f)
      → All IsLine (written out f)
        × (lookup_loop key family size (written out f) false none ≡ some (some state))
  save_loop_found size [] out f lt ls h =
      let same : ([] ≡ out) × (false ≡ f) = unfold save_loop in ground arith in
      rw (← same.0, ← same.1)
        ((record_line-IsLine, tt), lookup_loop-own size [] none lt ∙ (unfold lookup_loop in refl))
  save_loop_found size (line ∷ lines) out f lt (l, ls) h =
      elim (save_loop-cons line lines false out f h) [
        | replaced rest _ e o ↦
            let (yes_found, whole, looked) = save_loop_rest size lines rest f (some state) ls e in
            rw (o, yes_found)
              ((record_line-IsLine, whole), lookup_loop-own size rest none lt ∙ looked)
        | kept rest ended other e o ↦
            let (whole, looked) = save_loop_found size lines rest f lt ls e in
            let first : written (line ∷ rest) f ≡ line ∷ written rest f =
              written-cons line rest f in
            rw (o, first)
              (
                (l ended, whole),
                lookup_loop-other size line (written rest f) false none (l ended) other ∙ looked,
              )
      ]
    where
      written-cons :
          (line : List ℕ) (rest : List (List ℕ)) (f : Bool)
          → written (line ∷ rest) f ≡ line ∷ written rest f
      written-cons line rest true = refl
      written-cons line rest false = refl
