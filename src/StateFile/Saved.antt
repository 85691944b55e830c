-- ===== src/StateFile/Saved.antt =====
-- Saving and looking up through the whole functions, and the file that can no longer be changed.
use suprminer_fpga.Prelude.{
  ℕ, zero, suc, ◌+◌, ◌/◌, ◌%◌, ◌<◌, ◌≡◌, ◌≢◌, refl, sym, ap, ◌∙◌, Bool, true, false, not, ◌||◌, ltb,
  leb, ◌==◌, if◌then◌else◌, List, [], ◌∷◌, ◌++◌, Option, none, some, length, take, All, arith,
  Bool-cases, inl, inr,
}
use suprminer_fpga.StateFile.{
  max_lines, safe_component, has_char, valid_serial, decimal_digits, key_text, make_key, fgets_all,
  lookup_loop, Opened, missing, denied, opened, lookup_ends, lookup_file, lookup, record_line,
  save_loop, reading_ends, kept_lines, join_lines, Fault, replace_file, save_atomic,
}
use suprminer_fpga.StateFile.Lines.{
  has_char-append, safe_component_parts, take_all, fgets_all-join_lines, LineIfEnded,
  fgets_all_lines,
}
use suprminer_fpga.StateFile.RoundTrip.{IsEntry, written, save_loop_found}

digits_clear : (r n : ℕ) → has_char 10 (decimal_digits r n) ≡ false
unfolding decimal_digits has_char
digits_clear zero n = refl
digits_clear (suc r) n = elim (Bool-cases (ltb n 10)) [
  | inl e ↦ rw e (ground arith)
  | inr e ↦ rw e (
      has_char-append 10 (decimal_digits r (n / 10)) ((n % 10 + b'0') ∷ [])
      ∙ ground (arith, digits_clear r (n / 10)))
]

key_text_clear :
    (serial : List ℕ) (fpga : ℕ)
    → valid_serial (some serial) ≡ true
    → has_char 10 (key_text serial fpga) ≡ false
unfolding key_text
key_text_clear serial fpga h =
    let digits = digits_clear 10 fpga in
    let a = has_char-append 10 serial (b':' ∷ decimal_digits 10 fpga ++ (b'=' ∷ [])) in
    let b = has_char-append 10 (decimal_digits 10 fpga) (b'=' ∷ []) in
    let clear : has_char 10 serial ≡ false = unfold valid_serial in ground arith in
    unfold has_char in ground (arith, a, b, digits, clear)

-- A key that fits the buffer of `save` fits the larger one of `lookup`.
make_key_fits :
    (serial key : List ℕ) (fpga : ℕ)
    → make_key 64 (some serial) fpga ≡ some key
    → (make_key 96 (some serial) fpga ≡ some key) × (has_char 10 key ≡ false) × (length key < 64)
make_key_fits serial key fpga h =
    let (same, valid, short) = parts in
    (
      again valid short same,
      ap (has_char 10) (sym same) ∙ key_text_clear serial fpga valid,
      fits same short,
    )
  where
    parts :
        (key_text serial fpga ≡ key)
        × (valid_serial (some serial) ≡ true)
        × (length (key_text serial fpga) < 64)
    parts = unfold make_key in ground arith

    again :
        valid_serial (some serial) ≡ true
        → length (key_text serial fpga) < 64
        → key_text serial fpga ≡ key
        → make_key 96 (some serial) fpga ≡ some key
    again valid short same = unfold make_key in ground arith

    fits : key_text serial fpga ≡ key → length (key_text serial fpga) < 64 → length key < 64
    fits same short = rw (← same) short

reading_ends-some :
    (o : Option (List (List ℕ) × Bool)) (bad : Bool) (kept : List (List ℕ) × Bool)
    → reading_ends o bad ≡ some kept
    → (o ≡ some kept) × (bad ≡ false)
unfolding reading_ends
reading_ends-some none bad kept h = absurd (ground arith)
reading_ends-some (some k) true kept h = absurd (ground arith)
reading_ends-some (some k) false kept h = (h, refl)

full_test : (r c : Bool) (n : ℕ) → (r || leb max_lines n || c) ≡ false → n < max_lines
full_test r c n h = ground arith

-- The lines that are kept come from a pass of the loop over all lines of the file.
kept_lines_loop :
    (key new : List ℕ) (file : Opened) (out : List (List ℕ)) (f : Bool)
    → kept_lines key new file ≡ some (out, f)
    → (lines : List (List ℕ)) × All LineIfEnded lines
      × (save_loop key new lines false ≡ some (out, f))
kept_lines_loop key new missing out f h = ([], tt, unfold kept_lines save_loop in h)
kept_lines_loop key new denied out f h = absurd (unfold kept_lines in ground arith)
kept_lines_loop key new (opened bytes r c) out f h =
    let (looped, fine) =
      reading_ends-some (save_loop key new (take max_lines (fgets_all bytes)) false)
        (r || leb max_lines (length (fgets_all bytes)) || c) (out, f) (unfold kept_lines in h) in
    let below = full_test r c (length (fgets_all bytes)) fine in
    (
      fgets_all bytes,
      fgets_all_lines bytes,
      ap (λ ls. save_loop key new ls false)
            (sym (take_all max_lines (fgets_all bytes) (omega (arith, below))))
          ∙ looped,
    )

replace_file_written :
    (new bytes : List ℕ) (o : Option (List (List ℕ) × Bool)) (fault : Fault)
    → replace_file new o fault ≡ some bytes
    → (out : List (List ℕ)) × (f : Bool) × (o ≡ some (out, f))
      × (bytes ≡ join_lines (if f then out else out ++ (new ∷ [])))
unfolding replace_file
replace_file_written new bytes none fault h = absurd (ground arith)
replace_file_written new bytes (some (out, f)) fault h = (out, f, refl, ground arith)

-- The parts of a call of `save` that replaced the file.
save_atomic_parts :
    (path serial family state bytes : List ℕ) (fpga : ℕ) (file : Opened) (fault : Fault)
    → save_atomic (some path) (some serial) fpga (some family) (some state) file fault ≡ some bytes
    → (length path ≢ 0)
      × (safe_component (some family) 63 ≡ true)
      × (safe_component (some state) 63 ≡ true)
      × ((key : List ℕ) × (make_key 64 (some serial) fpga ≡ some key)
          × (replace_file
                (record_line key family state)
                (kept_lines key (record_line key family state) file)
                fault
              ≡ some bytes))
save_atomic_parts path serial family state bytes fpga file fault h =
    keyed (make_key 64 (some serial) fpga) refl
  where
    keyed :
        (o : Option (List ℕ))
        → make_key 64 (some serial) fpga ≡ o
        → (length path ≢ 0)
          × (safe_component (some family) 63 ≡ true)
          × (safe_component (some state) 63 ≡ true)
          × ((key : List ℕ) × (make_key 64 (some serial) fpga ≡ some key)
              × (replace_file
                    (record_line key family state)
                    (kept_lines key (record_line key family state) file)
                    fault
                  ≡ some bytes))
    keyed none e = absurd (unfold save_atomic in ground (arith, e, h))
    keyed (some key) e =
        let p : (length path ≢ 0)
            × (safe_component (some family) 63 ≡ true)
            × (safe_component (some state) 63 ≡ true)
            × (replace_file (record_line key family state)
                  (kept_lines key (record_line key family state) file) fault
                ≡ some bytes) =
          unfold save_atomic in ground (arith, e, h) in
        (p.0, p.1, p.2, (key, e, p.3))

lookup_file_found :
    (key family bytes : List ℕ) (size : ℕ) (lines : List (List ℕ)) (found : Option (List ℕ))
    → fgets_all bytes ≡ lines
    → lookup_loop key family size lines false none ≡ some found
    → lookup_file key family size (opened bytes false false)
      ≡ record { success = true; found = found }
unfolding lookup_file lookup_ends
lookup_file_found key family bytes size lines found p q =
    ap (λ o. lookup_ends o false false) (ap (λ ls. lookup_loop key family size ls false none) p ∙ q)

-- Whatever file was there before: once a save has replaced it, a lookup of the same FPGA and family, with
-- room for the state and a file that can be read, succeeds and answers the state that was saved.
pub lookup-save_atomic :
    (path serial family state bytes : List ℕ) (fpga size : ℕ) (file : Opened) (fault : Fault)
    → save_atomic (some path) (some serial) fpga (some family) (some state) file fault ≡ some bytes
    → length state < size
    → lookup (some path) (some serial) fpga (some family) size (opened bytes false false)
      ≡ some (record { success = true; found = some state })
unfolding lookup
lookup-save_atomic path serial family state bytes fpga size file fault h lt =
    let (nonempty, fam, st, (key, made, replaced)) =
      save_atomic_parts path serial family state bytes fpga file fault h in
    let (again, clear, short) = make_key_fits serial key fpga made in
    let (out, f, kept, content) = replace_file_written _ bytes _ fault replaced in
    let (lines, whole, looped) =
      kept_lines_loop key (record_line key family state) file out f kept in
    let entry : IsEntry key family state = record {
      key_clear = clear;
      key_short = short;
      family_safe = fam;
      state_safe = st;
    } in
    let (read_back, found) =
      save_loop_found key family state entry size lines out f lt whole looped in
    let pieces : fgets_all bytes ≡ written key family state entry out f =
      ap fgets_all content ∙ fgets_all-join_lines _ read_back in
    let positive = (safe_component_parts state 63 st).0 in
    let good : (length path == 0 || not (safe_component (some family) 63) || ltb size 2) ≡ false =
      ground arith in
    rw (good, again) (ap some (lookup_file_found key family bytes size _ (some state) pieces found))
