-- ===== src/DhcpManager/Restart/Examples.antt =====
-- A manager that starts, whose client ends once and is replaced, and that is stopped
-- (pkg/plugin/dhcp_manager.go).
use docker_net_dhcp.Shared.{[], ◌∷◌, true, false, Option, none, some, ◌≡◌}
use docker_net_dhcp.Shared.Text.{text}
use docker_net_dhcp.Errors.{Error, other}
use docker_net_dhcp.Udhcpc.{Process, exited, default_handler, client_args}
use docker_net_dhcp.Udhcpc.Lease.{lines_of}
use docker_net_dhcp.DhcpManager.{last_of}
use docker_net_dhcp.DhcpManager.Renewal.{leased}
use docker_net_dhcp.DhcpManager.Examples.{kernel, started, bound, collision}
use docker_net_dhcp.DhcpManager.Loop.{Family, client_options, Running, Attempt, Round, loop, begin}
use docker_net_dhcp.DhcpManager.Restart.{events_of_loop, loop-last_of}

abbrev family : Family
family = record {
  v6 = false;
  hostname = text "web";
  ns_path = text "/proc/42/ns/net";
  link = text "eth0";
}

abbrev process : Option Error → Process
process e = record {
  stderr_pipe = none;
  stdout_pipe = none;
  start = e;
  lines = lines_of (some collision ∷ some bound ∷ []);
  wait = exited none;
}

abbrev client : Running
client = record {
  client = record {
    opts = record (client_options family) { handler_script = default_handler };
    args =
        client_args (text "eth0")
          (record (client_options family) { handler_script = default_handler });
  };
  events = collision ∷ bound ∷ [];
}

abbrev try : Option Error → Attempt
try e = record { stopped = false; gone = false; process = process e }

abbrev round : Round
round = record {
  cut = none;
  wait = exited none;
  stopped = false;
  gone = false;
  attempts = try (some (other (text "fork"))) ∷ try none ∷ [];
}

abbrev final : Round
final = record { cut = some 1; wait = exited none; stopped = true; gone = false; attempts = [] }

loop-last_of_example :
    last_of false (loop kernel family client (round ∷ final ∷ []) (begin started)).progress.manager
    ≡ leased kernel (events_of_loop family client (round ∷ final ∷ [])) none
loop-last_of_example = loop-last_of kernel family client (round ∷ final ∷ []) (begin started)
