-- ===== src/Command/Bounds.antt =====
-- The settings of cmd/net-dhcp/main.go stay within their bounds.
use docker_net_dhcp.Shared.{
  ℕ, zero, suc, ◌+◌, ◌-◌, ◌*◌, ◌/◌, ◌%◌, ◌≤◌, ◌<◌, [], ◌∷◌, ◌++◌, true, false, ◌&&◌, Option, none,
  some, ◌≡◌, refl, ◌∙◌, inl, inr, arith, Option-cases, Bool-cases, ltb, leb, ◌==◌, if◌then◌else◌,
  append_assoc, append-nil, ap, sym,
}
use docker_net_dhcp.Shared.Text.{Text, text}
use docker_net_dhcp.Shared.Dict
use docker_net_dhcp.Shared.Dict.{Dict}
use docker_net_dhcp.Shared.Result.{ok, Result-cases}
use docker_net_dhcp.Driver.{Duration}
use docker_net_dhcp.Command.{
  Flags, Settings, is_digit, decimal, atoi, number_of, settings, or_info, or_env, timeout_of,
}

-- a number in decimal digits, with fuel for more digits than it has
abbrev pub digits : ℕ → ℕ → Text
digits zero n = []
digits (suc fuel) n =
    let more = digits fuel (n / 10) in (if ltb n 10 then [] else more) ++ (b'0' + n % 10) ∷ []

abbrev pub in_digits : ℕ → Text
in_digits n = digits (suc n) n

decimal_step :
    (n d : ℕ) (rest : Text) → d < 10 → decimal n ((b'0' + d) ∷ rest) ≡ decimal (10 * n + d) rest
unfolding decimal
decimal_step n d rest h =
    let digit : is_digit (b'0' + d) ≡ true = ground (arith, h) in
    let value : b'0' + d - b'0' ≡ d = omega arith in rw (digit, value) refl

decimal-digits :
    (fuel n : ℕ) (rest : Text) → n < fuel → decimal 0 (digits fuel n ++ rest) ≡ decimal n rest
decimal-digits zero n rest h = absurd (omega arith)
decimal-digits (suc fuel) n rest h = elim (Bool-cases (ltb n 10)) [
  | inl small ↦
      let below : n < 10 = ground (arith, small) in
      let whole : 10 * 0 + n % 10 ≡ n = omega (arith, below) in
      rw small (decimal_step 0 (n % 10) rest (omega arith) ∙ rw whole refl)
  | inr large ↦
      let whole : 10 * (n / 10) + n % 10 ≡ n = omega arith in
      let ge : 10 ≤ n = ground (arith, large) in
      let less : n / 10 < fuel = omega (arith, ge, h) in
      rw (large, append_assoc (digits fuel (n / 10)) ((b'0' + n % 10) ∷ []) rest)
        (decimal-digits fuel (n / 10) ((b'0' + n % 10) ∷ rest) less
          ∙ (decimal_step (n / 10) (n % 10) rest (omega arith) ∙ rw whole refl))
]

-- the first digit
digits-head :
    (fuel n : ℕ) → n < fuel → (d : ℕ) × (s : Text) × (digits fuel n ≡ (b'0' + d) ∷ s) × (d < 10)
digits-head zero n h = absurd (omega arith)
digits-head (suc fuel) n h = elim (Bool-cases (ltb n 10)) [
  | inl small ↦ (n % 10, [], rw small refl, omega arith)
  | inr large ↦
      let ge : 10 ≤ n = ground (arith, large) in
      let (d, s, first, low) = digits-head fuel (n / 10) (omega (arith, ge, h)) in
      (d, s ++ (b'0' + n % 10) ∷ [], rw (large, first) refl, low)
]

atoi-in_digits :
    (max_int n : ℕ) → atoi max_int (in_digits n) ≡ (if leb n max_int then some n else none)
unfolding atoi
atoi-in_digits max_int n =
    let (d, s, first, low) = digits-head (suc n) n (omega arith) in
    let minus : ((b'0' + d) == b'-') ≡ false = ground (arith, low) in
    let plus : ((b'0' + d) == b'+') ≡ false = ground (arith, low) in
    let read : decimal 0 ((b'0' + d) ∷ s) ≡ some n =
      ap (decimal 0) (sym first ∙ sym (append-nil (digits (suc n) n)))
      ∙ decimal-digits (suc n) n [] (omega arith) in
    rw (first, minus, plus, read) refl

settings_made :
    {L : Type 0} (parse_level : Text → Option L) (parse_duration : Text → Option Duration)
    (max_int : ℕ) (flags : Flags) (env : Dict Text) (s : Settings L)
    → settings parse_level parse_duration max_int flags env ≡ ok s
    → (s.max_size ≡ number_of max_int 1 (text "LOG_MAX_SIZE") 50 env flags.max_size)
      × (s.max_backups ≡ number_of max_int 0 (text "LOG_MAX_BACKUPS") 5 env flags.max_backups)
      × (s.max_age ≡ number_of max_int 0 (text "LOG_MAX_AGE") 14 env flags.max_age)
unfolding settings
settings_made parse_level parse_duration max_int flags env s h =
    elim (Option-cases (parse_level (or_info (or_env (text "LOG_LEVEL") env flags.log_level)))) [
      | inl e ↦ absurd (cc (rw (settings, e) at h))
      | inr (level, e) ↦
          elim (Result-cases (timeout_of parse_duration (Dict.get (text "AWAIT_TIMEOUT") env))) [
            | inl (f, t) ↦ absurd (cc (rw (settings, e, t) at h))
            | inr (timeout, t) ↦
                let made = rw (settings, e, t) at h in
                (ground (arith, made), ground (arith, made), ground (arith, made))
          ]
    ]

-- a number from the environment, or the default where it is out of bounds
number_of-in_digits :
    (max_int least n default : ℕ) (name : Text) (env : Dict Text) (flag : ℕ)
    → flag ≡ 0
    → Dict.get name env ≡ some (in_digits n)
    → number_of max_int least name default env flag
      ≡ (if leb least n && leb n max_int then n else default)
unfolding number_of
number_of-in_digits max_int least n default name env flag unset given =
    rw (unset, given, number_of, atoi-in_digits max_int n)
      (elim (Bool-cases (leb n max_int)) [ inl b ↦ ground (arith, b) | inr b ↦ ground (arith, b) ])

-- Where the environment gives a number in decimal digits for the size of a log file, the number of old
-- ones and their age, and no flag does, the settings have these numbers, but the defaults 50, 5 and 14
-- for a size of 0 and for what an int of the platform cannot hold. This is for settings without a
-- fatal error; the largest int is any.
pub settings-in_digits :
    {L : Type 0} (parse_level : Text → Option L) (parse_duration : Text → Option Duration)
    (max_int : ℕ) (flags : Flags) (env : Dict Text) (s : Settings L) (size backups age : ℕ)
    → settings parse_level parse_duration max_int flags env ≡ ok s
    → (flags.max_size ≡ 0) × (flags.max_backups ≡ 0) × (flags.max_age ≡ 0)
    → Dict.get (text "LOG_MAX_SIZE") env ≡ some (in_digits size)
    → Dict.get (text "LOG_MAX_BACKUPS") env ≡ some (in_digits backups)
    → Dict.get (text "LOG_MAX_AGE") env ≡ some (in_digits age)
    → (s.max_size ≡ (if leb 1 size && leb size max_int then size else 50))
      × (s.max_backups ≡ (if leb backups max_int then backups else 5))
      × (s.max_age ≡ (if leb age max_int then age else 14))
settings-in_digits parse_level parse_duration max_int flags env s size backups age h unset one two
      three =
    let (made_size, made_backups, made_age) =
      settings_made parse_level parse_duration max_int flags env s h in
    (
      made_size ∙ number_of-in_digits max_int 1 size 50 _ env flags.max_size unset.0 one,
      made_backups
          ∙ (number_of-in_digits max_int 0 backups 5 _ env flags.max_backups unset.1 two
              ∙ ground arith),
      made_age
          ∙ (number_of-in_digits max_int 0 age 14 _ env flags.max_age unset.2 three ∙ ground arith),
    )
