-- ===== src/StateFile/Runs.antt =====
-- Runs of the state file, and concrete cases of its theorems.
use suprminer_fpga.Prelude.{ℕ, ◌≡◌, refl, true, false, List, [], ◌∷◌, none, some, replicate, arith}
use suprminer_fpga.StateFile.{
  max_lines, component_chars, safe_component, has_char, valid_serial, decimal_digits, key_text,
  make_key, later_pieces, pieces, fgets_all, has_prefix, missing, opened, lookup, record_line,
  save_loop, reading_ends, kept_lines, join_lines, no_fault, rename_fault, replace_file,
  save_atomic,
}
use suprminer_fpga.StateFile.Saved.{lookup-save_atomic}

-- The path "s", the serial "A1", the family "f" and its states "a" and "b".
abbrev path : List ℕ
path = b's' ∷ []

abbrev serial : List ℕ
serial = b'A' ∷ b'1' ∷ []

abbrev family : List ℕ
family = b'f' ∷ []

abbrev state_a : List ℕ
state_a = b'a' ∷ []

abbrev state_b : List ℕ
state_b = b'b' ∷ []

-- "A1:12=f/a".
abbrev first_file : List ℕ
first_file = b'A' ∷ b'1' ∷ b':' ∷ b'1' ∷ b'2' ∷ b'=' ∷ b'f' ∷ b'/' ∷ b'a' ∷ 10 ∷ []

first_save :
    save_atomic (some path) (some serial) 12 (some family) (some state_a) missing no_fault
    ≡ some first_file
unfolding save_atomic make_key key_text decimal_digits valid_serial safe_component component_chars
    has_char kept_lines replace_file record_line join_lines
first_save = refl

-- The second save replaces the line of the same FPGA.
second_save :
    save_atomic
      (some path)
      (some serial)
      12
      (some family)
      (some state_b)
      (opened first_file false false)
      no_fault
    ≡ some (b'A' ∷ b'1' ∷ b':' ∷ b'1' ∷ b'2' ∷ b'=' ∷ b'f' ∷ b'/' ∷ b'b' ∷ 10 ∷ [])
unfolding save_atomic make_key key_text decimal_digits valid_serial safe_component component_chars
    has_char kept_lines reading_ends save_loop fgets_all pieces later_pieces has_prefix replace_file
    record_line join_lines
second_save = refl

lost_rename :
    save_atomic (some path) (some serial) 12 (some family) (some state_a) missing rename_fault
    ≡ none
unfolding save_atomic make_key key_text decimal_digits valid_serial safe_component component_chars
    has_char kept_lines replace_file
lost_rename = refl

bad_serial : make_key 64 (some (b'A' ∷ b':' ∷ [])) 0 ≡ none
unfolding make_key valid_serial has_char
bad_serial = refl

lookup-save_atomic_example :
    lookup (some path) (some serial) 12 (some family) 64 (opened first_file false false)
    ≡ some (record { success = true; found = some state_a })
lookup-save_atomic_example =
    lookup-save_atomic path serial family state_a first_file 12 64 missing no_fault first_save
      (omega arith)

-- 512 lines "x".
abbrev short_line : List ℕ
short_line = b'x' ∷ 10 ∷ []

abbrev full_file : List ℕ
full_file = join_lines (replicate max_lines short_line)
