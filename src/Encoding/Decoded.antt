-- ===== src/Encoding/Decoded.antt =====
-- The bytes that the base-58 decoder stores.
use suprminer_fpga.Prelude.{ℕ, ◌+◌, ◌-◌, ◌*◌, ◌/◌, ◌%◌, ◌^◌, List, [], ◌∷◌}

-- The number in a list of bytes, the highest first, behind a number before it.
abbrev pub bytes_value : ℕ → List ℕ → ℕ
bytes_value n [] = n
bytes_value n (b ∷ bytes) = bytes_value (n * 256 + b) bytes

-- One more than the largest number that the words can hold.
abbrev pub capacity : ℕ → ℕ
capacity binsz = 2 ^ (8 * (binsz % 4)) * (2 ^ 32) ^ ((binsz + 3) / 4 - 1)
