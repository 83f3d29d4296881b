-- ===== src/Command/Examples.antt =====
-- The settings of a plugin whose environment has a size for the log files (cmd/net-dhcp/main.go).
use docker_net_dhcp.Shared.{[], ◌∷◌, true, Option, none, some, ◌≡◌, refl}
use docker_net_dhcp.Shared.Text.{Text, text, str_eq}
use docker_net_dhcp.Shared.Dict
use docker_net_dhcp.Shared.Dict.{Dict}
use docker_net_dhcp.Shared.Result.{ok}
use docker_net_dhcp.Driver.{Duration, pos}
use docker_net_dhcp.Command.{Flags, Settings, settings, number_of, compress_of, atoi, decimal}
use docker_net_dhcp.Command.Bounds.{settings-in_digits}

abbrev flags : Flags
flags = record {
  log_level = [];
  log_file = text "/var/log/net-dhcp.log";
  max_size = 0;
  max_backups = 0;
  max_age = 30;
  compress = true;
}

abbrev env : Dict Text
env = (text "LOG_MAX_SIZE", text "200") ∷ (text "LOG_MAX_BACKUPS", text "-1") ∷ []

abbrev same : Text → Option Text
same s = some s

abbrev no_duration : Text → Option Duration
no_duration s = none

abbrev expected : Settings Text
expected = record {
  level = text "info";
  log_file = text "/var/log/net-dhcp.log";
  max_size = 200;
  max_backups = 5;
  max_age = 30;
  compress = true;
  await_timeout = pos 5000000000;
}

example_settings : settings same no_duration 2147483647 flags env ≡ ok expected
unfolding settings number_of compress_of atoi decimal Dict.get str_eq
example_settings = refl

-- a number that a 32-bit int cannot hold
abbrev given : Dict Text
given =
    (text "LOG_MAX_SIZE", text "0")
    ∷ (text "LOG_MAX_BACKUPS", text "3000000000")
    ∷ (text "LOG_MAX_AGE", text "30")
    ∷ []

abbrev unset : Flags
unset = record flags { max_age = 0 }

abbrev read : Settings Text
read = record expected { max_size = 50; max_backups = 5; max_age = 30 }

settings-in_digits_example : (read.max_size ≡ 50) × (read.max_backups ≡ 5) × (read.max_age ≡ 30)
unfolding settings number_of compress_of atoi decimal Dict.get str_eq
settings-in_digits_example =
    settings-in_digits same no_duration 2147483647 unset given read 0 3000000000 30 refl
      (refl, refl, refl) refl refl refl
