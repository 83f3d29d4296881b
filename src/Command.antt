-- ===== src/Command.antt =====
-- cmd/net-dhcp/main.go: the settings of the plugin's process, from its flags and its environment. The
-- parsers of logrus and of durations are parameters, and so is the largest int of the platform. A flag that is a number is a natural number
-- here, as the program takes a negative one for 0.
pub mod Bounds
mod Examples
use docker_net_dhcp.Shared.{
  ℕ, ◌+◌, ◌-◌, ◌*◌, [], ◌∷◌, Bool, true, false, ◌&&◌, ◌||◌, Option, none, some, if◌then◌else◌, ltb,
  leb, ◌==◌,
}
use docker_net_dhcp.Shared.Text.{Text, text, str_eq, is_empty}
use docker_net_dhcp.Shared.Dict
use docker_net_dhcp.Shared.Dict.{Dict}
use docker_net_dhcp.Shared.Result.{Result, ok, err, or_fail, ◌>>=◌}
use docker_net_dhcp.Driver.{Duration, pos}

pub record Flags : Type 0 where
  pub log_level : Text
  pub log_file : Text
  pub max_size : ℕ
  pub max_backups : ℕ
  pub max_age : ℕ
  pub compress : Bool

pub record Settings (L : Type 0) : Type 0 where
  pub level : L
  pub log_file : Text
  pub max_size : ℕ
  pub max_backups : ℕ
  pub max_age : ℕ
  pub compress : Bool
  pub await_timeout : Duration

-- the ways in which the program ends before it has made the plugin
pub data Fatal : Type 0 where
  bad_level bad_timeout : Fatal

abbrev pub is_digit : ℕ → Bool
is_digit c = leb b'0' c && leb c b'9'

-- the value of decimal digits
unfoldable pub decimal : ℕ → Text → Option ℕ
decimal n [] = some n
decimal n (c ∷ s) = let rest = decimal (10 * n + (c - b'0')) s in if is_digit c then rest else none

abbrev pub digits_of : Text → Option ℕ
digits_of [] = none
digits_of (c ∷ s) = decimal 0 (c ∷ s)

-- `max_int` is the largest int, 2 ^ 63 - 1 or, on the platforms with 32 bits, 2 ^ 31 - 1
abbrev pub in_range : ℕ → Option ℕ → Option ℕ
in_range max_int none = none
in_range max_int (some n) = if leb n max_int then some n else none

abbrev pub zero_only : Option ℕ → Option ℕ
zero_only none = none
zero_only (some n) = if n == 0 then some 0 else none

-- strconv.Atoi, for the numbers that are not negative: `none` is an error or a negative number
unfoldable pub atoi : ℕ → Text → Option ℕ
unfolding decimal
atoi max_int [] = none
atoi max_int (c ∷ s) =
    if c == b'-'
    then zero_only (digits_of s)
    else in_range max_int (digits_of (if c == b'+' then s else c ∷ s))

-- strconv.ParseBool
unfoldable pub parse_bool : Text → Option Bool
parse_bool s =
    if str_eq s (text "1")
      || str_eq s (text "t")
      || str_eq s (text "T")
      || str_eq s (text "TRUE")
      || str_eq s (text "true")
      || str_eq s (text "True")
    then some true
    else if str_eq s (text "0")
        || str_eq s (text "f")
        || str_eq s (text "F")
        || str_eq s (text "FALSE")
        || str_eq s (text "false")
        || str_eq s (text "False")
    then some false
    else none

abbrev pub or_env : Text → Dict Text → Text → Text
or_env name env flag =
    if is_empty flag then elim (Dict.get name env) [ none ↦ [] | some v ↦ v ] else flag

abbrev pub or_info : Text → Text
or_info level = if is_empty level then text "info" else level

abbrev pub above : ℕ → Option ℕ → ℕ → ℕ
above least none default = default
above least (some n) default = if leb least n then n else default

abbrev pub read_number : ℕ → Option Text → Option ℕ
read_number max_int none = none
read_number max_int (some v) = atoi max_int v

-- a number: the flag if it is positive, or else the variable's if that is one and not below `least`,
-- or else the default
unfoldable pub number_of : (max_int least : ℕ) (name : Text) (default : ℕ) → Dict Text → ℕ → ℕ
unfolding atoi
number_of max_int least name default env flag =
    if ltb 0 flag then flag else above least (read_number max_int (Dict.get name env)) default

abbrev pub read_bool : Option Text → Bool → Bool
read_bool none flag = flag
read_bool (some v) flag = elim (parse_bool v) [ none ↦ flag | some b ↦ b ]

-- the variable, if it is set to a truth value, and not the flag
unfoldable pub compress_of : Dict Text → Bool → Bool
unfolding parse_bool
compress_of env flag = read_bool (Dict.get (text "LOG_COMPRESS") env) flag

abbrev pub timeout_of : (Text → Option Duration) → Option Text → Result Fatal Duration
timeout_of parse_duration none = ok (pos 5000000000)
timeout_of parse_duration (some t) = or_fail bad_timeout (parse_duration t)

-- main, up to the making of the plugin; log files are written only with a name
unfoldable pub settings :
    {L : Type 0}
    → (Text → Option L)
    → (Text → Option Duration)
    → (max_int : ℕ) → Flags
    → Dict Text
    → Result Fatal (Settings L)
unfolding number_of compress_of
settings parse_level parse_duration max_int flags env = do
  level ← or_fail bad_level (parse_level (or_info (or_env (text "LOG_LEVEL") env flags.log_level)))
  timeout ← timeout_of parse_duration (Dict.get (text "AWAIT_TIMEOUT") env)
  ok (record {
    level = level;
    log_file = or_env (text "LOG_FILE") env flags.log_file;
    max_size = number_of max_int 1 (text "LOG_MAX_SIZE") 50 env flags.max_size;
    max_backups = number_of max_int 0 (text "LOG_MAX_BACKUPS") 5 env flags.max_backups;
    max_age = number_of max_int 0 (text "LOG_MAX_AGE") 14 env flags.max_age;
    compress = compress_of env flags.compress;
    await_timeout = timeout;
  })
