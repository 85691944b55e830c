-- ===== src/Heartbeat/Policy.antt =====
-- The scopes that are accepted, and what the option does.
use suprminer_fpga.Prelude.{
  is_zero, ℕ, ◌≡◌, ◌↔◌, ◌⊎◌, inl, inr, refl, Bool, true, false, List, [], ◌∷◌, Option, none, some,
  ℤ, pos, negsuc, arith, Bool-cases,
}
use suprminer_fpga.Heartbeat.{
  default_seconds, canary_seconds, canary_serial, PolicyResult, Scope, parse_canary_seconds,
  option_apply, serial_is_safe, bitstream_is_safe, text_is, policy_validate,
}
use suprminer_fpga.Heartbeat.Texts.{
  IsBareName, text_is_iff, canary_serial_safe, bitstream_is_safe_iff, parse_canary_seconds_iff,
}

-- The one scope of the canary interval.
pub record IsCanary (s : Scope) : Type 0 where
  pub seconds : s.interval_seconds ≡ canary_seconds
  pub sha3t : s.algorithm_sha3t ≡ true
  pub ztex_only : (s.use_ztex ≡ true) × (s.use_cpu ≡ false) × (s.use_serial ≡ false)
  pub device : s.serial_only ≡ some canary_serial
  pub first_lane : s.fpga_only ≡ some (b'0' ∷ [])
  pub bare_bitstream : (name : List ℕ) × (s.bitstream_name ≡ some name) × IsBareName name
  pub no_api : s.api_listen ≡ pos 0
  pub no_firmware : s.force_firmware ≡ false
  pub fixed_clock : s.auto_frequency ≡ false
  pub ztex_96 : (s.ztex_frequency_explicit ≡ true) × (s.ztex_frequency_exact_96 ≡ true)
  pub hash_clock_96 : (s.hash_clock_explicit ≡ true) × (s.hash_clock_exact_96 ≡ true)

bitstream_iff :
    (o : Option (List ℕ))
    → (bitstream_is_safe o ≡ true) ↔ ((name : List ℕ) × (o ≡ some name) × IsBareName name)
bitstream_iff none =
    (λ e. absurd (unfold bitstream_is_safe in ground arith), λ p. absurd (ground (arith, p.1)))
bitstream_iff (some name) = (
  λ e. (name, refl, (bitstream_is_safe_iff name).0 e),
  λ p. rw p.1 ((bitstream_is_safe_iff p.0).1 p.2),
)

is_zero_iff : (z : ℤ) → (is_zero z ≡ true) ↔ (z ≡ pos 0)
is_zero_iff (pos n) = ground arith
is_zero_iff (negsuc n) = ground arith

-- The tests of an explicit option, each as what makes it pass.
abbrev Tests : Scope → Type 0
Tests s =
    (s.interval_seconds ≡ canary_seconds)
    × (s.algorithm_sha3t ≡ true)
    × (s.use_ztex ≡ true)
    × (s.use_cpu ≡ false)
    × (s.use_serial ≡ false)
    × (serial_is_safe s.serial_only ≡ true)
    × (text_is s.serial_only canary_serial ≡ true)
    × (text_is s.fpga_only (b'0' ∷ []) ≡ true)
    × (bitstream_is_safe s.bitstream_name ≡ true)
    × (is_zero s.api_listen ≡ true)
    × (s.force_firmware ≡ false)
    × (s.auto_frequency ≡ false)
    × (s.ztex_frequency_explicit ≡ true)
    × (s.ztex_frequency_exact_96 ≡ true)
    × (s.hash_clock_explicit ≡ true)
    × (s.hash_clock_exact_96 ≡ true)

validate-Tests :
    (s : Scope) → s.option_seen ≡ true → (policy_validate s ≡ PolicyResult.ok) ↔ Tests s
unfolding policy_validate
validate-Tests s seen = (λ e. ground arith, λ p. ground arith)

Tests-IsCanary : (s : Scope) → Tests s ↔ IsCanary s
Tests-IsCanary s = (
  λ (a, b, c, d, e, _, f, g, h, i, j, k, l, m, n, o). record {
    seconds = a;
    sha3t = b;
    ztex_only = (c, d, e);
    device = (text_is_iff s.serial_only canary_serial).0 f;
    first_lane = (text_is_iff s.fpga_only (b'0' ∷ [])).0 g;
    bare_bitstream = (bitstream_iff s.bitstream_name).0 h;
    no_api = (is_zero_iff s.api_listen).0 i;
    no_firmware = j;
    fixed_clock = k;
    ztex_96 = (l, m);
    hash_clock_96 = (n, o);
  },
  λ p. (
    p.seconds,
    p.sha3t,
    p.ztex_only.0,
    p.ztex_only.1,
    p.ztex_only.2,
    rw p.device canary_serial_safe,
    (text_is_iff s.serial_only canary_serial).1 p.device,
    (text_is_iff s.fpga_only (b'0' ∷ [])).1 p.first_lane,
    (bitstream_iff s.bitstream_name).1 p.bare_bitstream,
    (is_zero_iff s.api_listen).1 p.no_api,
    p.no_firmware,
    p.fixed_clock,
    p.ztex_96.0,
    p.ztex_96.1,
    p.hash_clock_96.0,
    p.hash_clock_96.1,
  ),
)

-- A scope is accepted exactly when the option was not given and the interval is the default one, or when
-- it was given and everything else is the scope of the canary: its interval, algorithm, device and lane,
-- a bare bitstream name, no API, no firmware upload, and both clocks explicitly at 96.
pub policy_validate_iff :
    (s : Scope)
    → (policy_validate s ≡ PolicyResult.ok) ↔ (
        (s.option_seen ≡ false) × (s.interval_seconds ≡ default_seconds)
        ⊎ (s.option_seen ≡ true) × IsCanary s)
policy_validate_iff s = elim (Bool-cases s.option_seen) [
  | inl seen ↦
      let tests = validate-Tests s seen in
      let canary = Tests-IsCanary s in
      (
        λ e. inr (seen, canary.0 (tests.0 e)),
        λ o. elim o [ inl (unseen, _) ↦ absurd (ground arith) | inr (_, c) ↦ tests.1 (canary.1 c) ],
      )
  | inr unseen ↦ (
    λ e. inl (unseen, unfold policy_validate in ground arith),
    λ o. elim o [
      | inl (_, d) ↦ unfold policy_validate in ground arith
      | inr (seen, _) ↦ absurd (ground arith)
    ],
  )
]

-- The option is applied exactly when it comes for the first time with the text "20", and otherwise
-- leaves both variables as they were.
pub option_apply_cases :
    (text : Option (List ℕ)) (seen : Bool) (seconds : ℕ)
    → ((seen ≡ false)
        × (text ≡ some (b'2' ∷ b'0' ∷ []))
        × (option_apply text seen seconds ≡ (PolicyResult.ok, true, canary_seconds)))
      ⊎ ((option_apply text seen seconds ≡ (PolicyResult.duplicate, seen, seconds)) × (seen ≡ true))
      ⊎ ((option_apply text seen seconds ≡ (PolicyResult.interval, seen, seconds))
          × (seen ≡ false)
          × (parse_canary_seconds text ≡ none))
option_apply_cases text seen seconds = parsed (parse_canary_seconds text) refl
  where
    parsed :
        (o : Option ℕ)
        → parse_canary_seconds text ≡ o
        → ((seen ≡ false)
            × (text ≡ some (b'2' ∷ b'0' ∷ []))
            × (option_apply text seen seconds ≡ (PolicyResult.ok, true, canary_seconds)))
          ⊎ ((option_apply text seen seconds ≡ (PolicyResult.duplicate, seen, seconds))
              × (seen ≡ true))
          ⊎ ((option_apply text seen seconds ≡ (PolicyResult.interval, seen, seconds))
              × (seen ≡ false)
              × (parse_canary_seconds text ≡ none))
    parsed none e = elim (Bool-cases seen) [
      | inl s ↦ inr (inl (unfold option_apply in ground (arith, e), s))
      | inr s ↦ inr (inr (unfold option_apply in ground (arith, e), s, e))
    ]
    parsed (some n) e = elim (Bool-cases seen) [
      | inl s ↦ inr (inl (unfold option_apply in ground (arith, e), s))
      | inr s ↦
          let (t, twenty) = (parse_canary_seconds_iff text n).0 e in
          inl (s, t, unfold option_apply in ground (arith, e))
    ]
