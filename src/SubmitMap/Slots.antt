-- ===== src/SubmitMap/Slots.antt =====
-- The array of slots: what each loop over it finds or leaves, by induction on the list.
use suprminer_fpga.Prelude.{
  ℕ, zero, suc, ◌+◌, ◌<◌, ◌≡◌, ◌⊎◌, refl, inl, inr, true, false, List, [], ◌∷◌, some, ◌==◌,
  if◌then◌else◌, arith, length, get_or, set, Bool-cases,
}
use suprminer_fpga.SubmitMap.{
  Entry, SlotState, free, queued, sent, state_eq, free_entry, count_in, retire_sent, first_free,
  submit_map_size, awaits, take_scan,
}

pub get_or-set {ℓ} :
    {A : Type ℓ} (xs : List A) (i j : ℕ) (v d : A)
    → i < length xs
    → get_or (set xs i v) j d ≡ (if i == j then v else get_or xs j d)
get_or-set [] i j v d h = elim h [ ]
get_or-set (x ∷ xs) zero zero v d h = refl
get_or-set (x ∷ xs) zero (suc j) v d h = ground arith
get_or-set (x ∷ xs) (suc i) zero v d h = ground arith
get_or-set (x ∷ xs) (suc i) (suc j) v d h = ground (arith, get_or-set xs i j v d)

-- Exactly the sent slots are cleared.
pub get_or-retire_sent :
    (es : List Entry) (i : ℕ)
    → get_or (retire_sent es) i free_entry ≡ (
        if state_eq (get_or es i free_entry).state sent then free_entry else get_or es i free_entry)
unfolding retire_sent
get_or-retire_sent [] i = refl
get_or-retire_sent (e ∷ es) zero = refl
get_or-retire_sent (e ∷ es) (suc i) = get_or-retire_sent es i

pub length-retire_sent : (es : List Entry) → length (retire_sent es) ≡ length es
unfolding retire_sent
length-retire_sent [] = refl
length-retire_sent (e ∷ es) = omega (arith, length-retire_sent es)

-- Either every slot is in use and the search answers `submit_map_size`, or it answers a free slot.
pub first_free_cases :
    (es : List Entry) (i : ℕ)
    → ((first_free es i ≡ submit_map_size) × (count_in free es ≡ 0))
      ⊎ ((k : ℕ) × (k < length es)
          × (first_free es i ≡ i + k)
          × ((get_or es k free_entry).state ≡ free))
unfolding first_free count_in
first_free_cases [] i = inl (refl, refl)
first_free_cases (e ∷ es) i = elim (Bool-cases (state_eq e.state free)) [
  | inl h ↦ inr (0, omega arith, ground arith, ground arith)
  | inr h ↦ elim (first_free_cases es (suc i)) [
    | inl (p, q) ↦ inl (ground arith, ground arith)
    | inr (k, p, q, r) ↦ inr (suc k, omega arith, ground arith, r)
  ]
]

abbrev pub tally : SlotState → Entry → ℕ
tally s e = if state_eq e.state s then 1 else 0

-- A write moves the count by what it writes and what it overwrites.
pub count_in-set :
    (s : SlotState) (es : List Entry) (i : ℕ) (v : Entry)
    → i < length es
    → count_in s (set es i v) + tally s (get_or es i free_entry) ≡ count_in s es + tally s v
unfolding count_in
count_in-set s [] i v h = elim h [ ]
count_in-set s (e ∷ es) zero v h = ground arith
count_in-set s (e ∷ es) (suc i) v h = ground (arith, count_in-set s es i v)

pub count_in-retire_sent :
    (es : List Entry)
    → (count_in queued (retire_sent es) ≡ count_in queued es) × (count_in sent (retire_sent es) ≡ 0)
unfolding count_in retire_sent
count_in-retire_sent [] = (refl, refl)
count_in-retire_sent (e ∷ es) = ground (arith, count_in-retire_sent es)

-- Each slot is in one of the three states.
pub count_in_total :
    (es : List Entry) → count_in free es + (count_in queued es + count_in sent es) ≡ length es
unfolding count_in
count_in_total [] = refl
count_in_total (e ∷ es) = ground (arith, count_in_total es)

-- With no match to come, the scan keeps what it has found.
pub take_scan_rest :
    (g id : ℕ) (es : List Entry) (i found : ℕ)
    → ((j : ℕ) → awaits g id (get_or es j free_entry) ≡ false)
    → take_scan g id es i found ≡ some found
unfolding take_scan
take_scan_rest g id [] i found h = refl
take_scan_rest g id (e ∷ es) i found h =
    ground (arith, h 0, take_scan_rest g id es (suc i) found (λ j. h (suc j)))

-- With exactly one match, the scan finds it.
pub take_scan_unique :
    (g id : ℕ) (es : List Entry) (i k : ℕ)
    → ((j : ℕ) → awaits g id (get_or es j free_entry) ≡ true → j ≡ k)
    → awaits g id (get_or es k free_entry) ≡ true
    → take_scan g id es i submit_map_size ≡ some (i + k)
unfolding take_scan
take_scan_unique g id [] i k u h = ground arith
take_scan_unique g id (e ∷ es) i zero u h =
    let others : (j : ℕ) → awaits g id (get_or es j free_entry) ≡ false =
      λ j. ground (arith, u (suc j)) in
    ground (arith, take_scan_rest g id es (suc i) i others)
take_scan_unique g id (e ∷ es) i (suc k) u h =
    ground (arith, u 0, take_scan_unique g id es (suc i) k (λ j a. omega (arith, u (suc j) a)) h)

-- Either no slot awaits this identity, or some slot does.
pub find_awaiting :
    (g id : ℕ) (es : List Entry)
    → ((j : ℕ) → awaits g id (get_or es j free_entry) ≡ false)
      ⊎ ((k : ℕ) × (k < length es) × (awaits g id (get_or es k free_entry) ≡ true))
find_awaiting g id [] = inl (λ j. refl)
find_awaiting g id (e ∷ es) = elim (Bool-cases (awaits g id e)) [
  | inl h ↦ inr (0, omega arith, h)
  | inr h ↦ elim (find_awaiting g id es) [
    | inl none_here ↦ inl (elim [ zero ↦ h | suc j ↦ none_here j ])
    | inr (k, p, q) ↦ inr (suc k, omega arith, q)
  ]
]
