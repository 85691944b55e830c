-- ===== src/StateFile.antt =====
-- sha3_variant_state.c: the file that remembers which image each FPGA runs, one line per FPGA. A text is
-- `none` for NULL, or the list of its bytes before the terminating NUL; a file is the list of its bytes,
-- none of which is NUL.
pub mod Lines
pub mod RoundTrip
pub mod Saved
mod Runs
use suprminer_fpga.Prelude.{
  ℕ, zero, suc, ◌+◌, ◌-◌, ◌/◌, ◌%◌, Bool, true, false, not, ◌&&◌, ◌||◌, ltb, leb, ◌==◌,
  if◌then◌else◌, List, [], ◌∷◌, ◌++◌, Option, none, some, length, take, drop,
}

abbrev pub max_lines : ℕ
max_lines = 512

-- What `fgets` stores at most in a line of 256 bytes, its NUL not counted.
abbrev pub line_chars : ℕ
line_chars = 255

abbrev pub path_max : ℕ
path_max = 4096

abbrev pub component_char : ℕ → Bool
component_char c =
    (leb b'a' c && leb c b'z')
    || (leb b'A' c && leb c b'Z')
    || (leb b'0' c && leb c b'9')
    || c == b'-'
    || c == b'_'
    || c == b'.'

unfoldable pub component_chars : List ℕ → Bool
component_chars [] = true
component_chars (c ∷ cs) =
    let rest = component_chars cs in if not (component_char c) then false else rest

unfoldable pub safe_component : Option (List ℕ) → ℕ → Bool
safe_component none maximum = false
safe_component (some text) maximum =
    if length text == 0 || ltb maximum (length text) then false else component_chars text

-- `strchr(text, c) != NULL`.
unfoldable pub has_char : ℕ → List ℕ → Bool
has_char c [] = false
has_char c (x ∷ xs) = x == c || has_char c xs

unfoldable pub valid_serial : Option (List ℕ) → Bool
valid_serial none = false
valid_serial (some serial) =
    not (length serial == 0)
    && not (has_char 10 serial)
    && not (has_char 13 serial)
    && not (has_char b'=' serial)
    && not (has_char b':' serial)
    && not (has_char b'/' serial)

-- What `%u` prints: at most ten digits for an `unsigned`.
unfoldable pub decimal_digits : ℕ → ℕ → List ℕ
decimal_digits zero n = []
decimal_digits (suc r) n =
    let rest = decimal_digits r (n / 10) in
    if ltb n 10 then (n + b'0') ∷ [] else rest ++ ((n % 10 + b'0') ∷ [])

-- The text of the key, "serial:fpga=".
unfoldable pub key_text : List ℕ → ℕ → List ℕ
key_text serial fpga = serial ++ (b':' ∷ decimal_digits 10 fpga ++ (b'=' ∷ []))

-- `none` for `false`; the key for `true`.
unfoldable pub make_key : ℕ → Option (List ℕ) → ℕ → Option (List ℕ)
make_key size none fpga = none
make_key size (some serial) fpga =
    if size == 0 || not (valid_serial (some serial))
    then none
    else if leb size (length (key_text serial fpga))
    then none
    else some (key_text serial fpga)

-- What successive calls of `fgets` return on a file: the piece that is being read, with `room` for that
-- many more characters, and the pieces after it. A piece ends behind a newline, or when it is full.
unfoldable pub later_pieces : List ℕ × List (List ℕ) → List (List ℕ)
later_pieces ([], ps) = ps
later_pieces (b ∷ bs, ps) = (b ∷ bs) ∷ ps

unfoldable pub pieces : ℕ → List ℕ → List ℕ × List (List ℕ)
unfolding later_pieces
pieces room [] = ([], [])
pieces room (b ∷ bs) =
    let next = pieces line_chars bs in
    let same = pieces (room - 1) bs in
    if b == 10 || leb room 1 then (b ∷ [], later_pieces next) else (b ∷ same.0, same.1)

unfoldable pub fgets_all : List ℕ → List (List ℕ)
unfolding pieces later_pieces
fgets_all bytes = later_pieces (pieces line_chars bytes)

-- `strncmp(line, key, strlen(key)) == 0`.
unfoldable pub has_prefix : List ℕ → List ℕ → Bool
has_prefix [] line = true
has_prefix (k ∷ ks) [] = false
has_prefix (k ∷ ks) (x ∷ xs) = k == x && has_prefix ks xs

-- The bytes before the first `c`, and those after it.
unfoldable pub before : ℕ → List ℕ → List ℕ
before c [] = []
before c (x ∷ xs) = if x == c then [] else x ∷ before c xs

unfoldable pub after : ℕ → List ℕ → List ℕ
after c [] = []
after c (x ∷ xs) = if x == c then xs else after c xs

-- `strcmp(a, b) == 0`.
unfoldable pub bytes_equal : List ℕ → List ℕ → Bool
bytes_equal [] [] = true
bytes_equal (x ∷ xs) (y ∷ ys) = x == y && bytes_equal xs ys
bytes_equal _ _ = false

-- What a matching line says: `none` where the loop fails, `some none` for another family.
unfoldable pub line_value : List ℕ → ℕ → List ℕ → Option (Option (List ℕ))
line_value family size value =
    if not (has_char b'/' value) || has_char b'/' (after b'/' value)
    then none
    else if not (safe_component (some (before b'/' value)) 63)
        || not (safe_component (some (after b'/' value)) 63)
    then none
    else if not (bytes_equal (before b'/' value) family)
    then some none
    else if leb size (length (after b'/' value))
    then none
    else some (some (after b'/' value))

-- What a line says under a key: `none` when it does not begin with the key.
unfoldable pub line_says : List ℕ → List ℕ → ℕ → List ℕ → Option (Option (Option (List ℕ)))
unfolding line_value
line_says key family size text =
    if has_prefix key text then some (line_value family size (drop (length key) text)) else none

-- The loop of `lookup`: what was found, `none` for a jump to `fail`.
unfoldable pub lookup_loop :
    List ℕ → List ℕ → ℕ → List (List ℕ) → Bool → Option (List ℕ) → Option (Option (List ℕ))
unfolding line_says
lookup_loop key family size [] matched found = some found
lookup_loop key family size (line ∷ lines) matched found =
    if not (has_char 10 line) then none else elim (line_says key family size (before 10 line)) [
      | none ↦ lookup_loop key family size lines matched found
      | some value ↦ if matched then none else elim value [
        | none ↦ none
        | some none ↦ lookup_loop key family size lines true found
        | some (some id) ↦ lookup_loop key family size lines true (some id)
      ]
    ]

-- What opening the path for reading gives.
pub data Opened : Type 0 where
  missing denied : Opened
  opened : (bytes : List ℕ) (read_error close_error : Bool) → Opened

-- The return value, and what is left in `*found` and `state_id`.
pub record Answer : Type 0 where
  pub success : Bool
  pub found : Option (List ℕ)

-- What follows the loop, and the label `fail`.
unfoldable pub lookup_ends : Option (Option (List ℕ)) → Bool → Bool → Answer
lookup_ends none read_error close_error = record { success = false; found = none }
lookup_ends (some found) read_error close_error =
    if read_error
    then record { success = false; found = none }
    else record { success = not close_error; found = found }

unfoldable pub lookup_file : List ℕ → List ℕ → ℕ → Opened → Answer
unfolding lookup_loop fgets_all lookup_ends
lookup_file key family size missing = record { success = true; found = none }
lookup_file key family size denied = record { success = false; found = none }
lookup_file key family size (opened bytes read_error close_error) =
    lookup_ends (lookup_loop key family size (fgets_all bytes) false none) read_error close_error

-- Arguments: the path, the serial, the FPGA, the family, the size of `state_id`. On an invalid argument
-- neither variable is written, which `none` stands for.
unfoldable pub lookup :
    Option (List ℕ) → Option (List ℕ) → ℕ → Option (List ℕ) → ℕ → Opened → Option Answer
unfolding lookup_file
lookup none serial fpga family size file = none
lookup (some path) serial fpga none size file = none
lookup (some path) serial fpga (some family) size file =
    if length path == 0 || not (safe_component (some family) 63) || ltb size 2
    then none
    else elim (make_key 96 serial fpga) [
      | none ↦ none
      | some key ↦ some (lookup_file key family size file)
    ]

-- The line of one FPGA, "key family/state\n".
unfoldable pub record_line : List ℕ → List ℕ → List ℕ → List ℕ
record_line key family state = key ++ (family ++ (b'/' ∷ state ++ (10 ∷ [])))

-- The reading loop of `save`: the lines that it keeps, and `found`; `none` for a jump to `fail`.
unfoldable pub save_loop : List ℕ → List ℕ → List (List ℕ) → Bool → Option (List (List ℕ) × Bool)
save_loop key new [] found = some ([], found)
save_loop key new (line ∷ lines) found =
    if not (has_char 10 line) then none else elim (has_prefix key line) [
      | false ↦ elim (save_loop key new lines found) [
        | none ↦ none
        | some (out, f) ↦ some (line ∷ out, f)
      ]
      | true ↦
          if found || ltb line_chars (length new)
          then none
          else elim (save_loop key new lines true) [
            | none ↦ none
            | some (out, f) ↦ some (new ∷ out, f)
          ]
    ]

-- The lines that are to be written, or `none`: `feof` is not set when the loop ends with the array
-- full, since the last line that it read ends with a newline.
unfoldable pub reading_ends : Option (List (List ℕ) × Bool) → Bool → Option (List (List ℕ) × Bool)
reading_ends none bad = none
reading_ends (some kept) bad = if bad then none else some kept

unfoldable pub kept_lines : List ℕ → List ℕ → Opened → Option (List (List ℕ) × Bool)
unfolding save_loop fgets_all reading_ends
kept_lines key new missing = some ([], false)
kept_lines key new denied = none
kept_lines key new (opened bytes read_error close_error) =
    let lines = fgets_all bytes in
    reading_ends (save_loop key new (take max_lines lines) false)
      (read_error || leb max_lines (length lines) || close_error)

unfoldable pub join_lines : List (List ℕ) → List ℕ
join_lines [] = []
join_lines (l ∷ ls) = l ++ join_lines ls

-- The step of the replacement that fails: `mkstemp`, `fdopen`, a write, the flush or its `fsync`, the
-- close, the rename. Up to the rename the path keeps its file.
pub data Fault : Type 0 where
  no_fault temp_fault open_fault put_fault flush_fault close_fault rename_fault : Fault

abbrev pub is_faultless : Fault → Bool
is_faultless no_fault = true
is_faultless _ = false

-- The file that the path names afterwards, if it was replaced, and the return value is whether it was.
unfoldable pub replace_file : List ℕ → Option (List (List ℕ) × Bool) → Fault → Option (List ℕ)
unfolding join_lines
replace_file new none fault = none
replace_file new (some (out, found)) fault =
    if not found && length out == max_lines
    then none
    else if not (is_faultless fault)
    then none
    else some (join_lines (if found then out else out ++ (new ∷ [])))

unfoldable pub save_atomic :
    Option (List ℕ)
    → Option (List ℕ)
    → ℕ
    → Option (List ℕ)
    → Option (List ℕ)
    → Opened
    → Fault
    → Option (List ℕ)
unfolding kept_lines replace_file record_line
save_atomic none serial fpga family state file fault = none
save_atomic (some path) serial fpga none state file fault = none
save_atomic (some path) serial fpga (some family) none file fault = none
save_atomic (some path) serial fpga (some family) (some state) file fault =
    if length path == 0
      || not (safe_component (some family) 63)
      || not (safe_component (some state) 63)
    then none
    else elim (make_key 64 serial fpga) [
      | none ↦ none
      | some key ↦
          let new = record_line key family state in
          if leb path_max (length path + 11)
          then none
          else replace_file new (kept_lines key new file) fault
    ]
