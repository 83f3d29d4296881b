-- ===== src/Udhcpc/Examples.antt =====
-- A udhcpc that gets a lease (pkg/udhcpc/client.go).
use docker_net_dhcp.Shared.{
  ◌<◌, List, [], ◌∷◌, true, false, Option, none, some, ◌≡◌, ◌↔◌, refl, arith, All, length,
}
use docker_net_dhcp.Shared.Text.{text, str_eq}
use docker_net_dhcp.Shared.Result.{ok}
use docker_net_dhcp.Macgen.Hex.{encode_hex, hex_byte, hex_digit}
use docker_net_dhcp.Udhcpc.{
  Event, Info, ClientOptions, Process, exited, get_ip, hostname_args, fqdn_data, events_of, no_info,
}
use docker_net_dhcp.Udhcpc.Lease.{
  IsRun, IsLastLease, get_ip_iff, lines_of, written, events_of-written,
}
use docker_net_dhcp.Udhcpc.Fqdn.{read_option, read_name, read_option-hostname_args}

abbrev deconfig : Event
deconfig = record { kind = text "deconfig"; data_of = no_info }

abbrev lease : Info
lease = record {
  ip = text "192.168.107.50/255.255.255.0";
  gateway = text "192.168.107.253";
  domain = text "lan";
}

abbrev bound : Event
bound = record { kind = text "bound"; data_of = lease }

abbrev output : List (Option Event)
output = some deconfig ∷ none ∷ some bound ∷ []

abbrev quiet : Process
quiet = record {
  stderr_pipe = none;
  stdout_pipe = none;
  start = none;
  lines = lines_of output;
  wait = exited none;
}

abbrev options : ClientOptions
options = record {
  hostname = text "web";
  mac_address = [];
  v6 = false;
  once = false;
  namespace = [];
  handler_script = [];
}

output_events : events_of (lines_of output) ≡ written output
output_events = events_of-written output

quiet-IsRun : IsRun quiet
quiet-IsRun = record { piped = refl; readable = refl; started = refl; ended = refl }

quiet-IsLastLease : IsLastLease (events_of quiet.lines) lease
unfolding str_eq
quiet-IsLastLease = record {
  before = deconfig ∷ [];
  event = bound;
  after = [];
  parts = output_events;
  leased = refl;
  informs = refl;
  final = tt;
}

get_ip_iff_example : get_ip quiet (text "eth0") options ≡ ok lease
get_ip_iff_example =
    (get_ip_iff quiet (text "eth0") options lease).1 (quiet-IsRun, quiet-IsLastLease)

read_option-hostname_args_example :
    (read_option (hostname_args true (text "web")) ≡ some (fqdn_data (text "web")))
    × All (λ b. b < 256) (fqdn_data (text "web"))
    × ((read_name (fqdn_data (text "web")) ≡ some (text "web")) ↔ (length (text "web") < 256))
read_option-hostname_args_example =
    read_option-hostname_args (text "web") (λ p. cc) (omega arith, (omega arith, (omega arith, tt)))

web_arguments : hostname_args true (text "web") ≡ text "-x" ∷ text "0x27:0103776562" ∷ []
unfolding hostname_args fqdn_data encode_hex hex_byte hex_digit
web_arguments = refl
