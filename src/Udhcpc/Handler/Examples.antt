-- ===== src/Udhcpc/Handler/Examples.antt =====
-- A run of the handler for a lease of an IPv4 address (cmd/udhcpc-handler/main.go).
use docker_net_dhcp.Shared.{ℕ, List, [], ◌∷◌, true, false, none, some, ◌≡◌, ◌≢◌, ◌↔◌, inl, refl}
use docker_net_dhcp.Shared.Text.{Text, text, str_eq}
use docker_net_dhcp.Shared.Dict
use docker_net_dhcp.Shared.Dict.{Dict}
use docker_net_dhcp.Udhcpc.{Process, ClientOptions, exited}
use docker_net_dhcp.Udhcpc.Lease.{lines_of}
use docker_net_dhcp.Udhcpc.Handler.Frame.{is_conflict, garp_frame, probe_frame}
use docker_net_dhcp.Udhcpc.Handler.{Machine, handle, encoded, v4_info}
use docker_net_dhcp.Udhcpc.Handler.Arp.{is_conflict-garp}
use docker_net_dhcp.Udhcpc.Handler.Run.{handle_v4}
use docker_net_dhcp.Udhcpc.Handler.Reach.{Call, outputs}

abbrev own_mac : List ℕ
own_mac = 2 ∷ 66 ∷ 172 ∷ 17 ∷ 0 ∷ 2 ∷ []

abbrev other_mac : List ℕ
other_mac = 2 ∷ 66 ∷ 172 ∷ 17 ∷ 0 ∷ 9 ∷ []

abbrev address : List ℕ
address = 192 ∷ 168 ∷ 107 ∷ 50 ∷ []

-- another host answers for the address
abbrev crowded : Machine
crowded = record {
  hardware_addr = λ name. some own_mac;
  to4 = λ ip. some address;
  parse_cidr = λ s. none;
  opens = λ network name. true;
  frames = garp_frame other_mac address ∷ [];
  packets = [];
  writable = true;
  announced = 2;
}

abbrev env : Dict Text
env =
    (text "interface", text "eth0")
    ∷ (text "ip", text "192.168.107.50")
    ∷ (text "router", text "192.168.107.253")
    ∷ []

is_conflict-garp_example :
    ((is_conflict own_mac address (garp_frame other_mac address) ≡ true)
      ↔ ((address ≡ address) × (other_mac ≢ own_mac)))
    × (is_conflict own_mac address (probe_frame other_mac address) ≡ false)
is_conflict-garp_example = is_conflict-garp own_mac address other_mac address refl refl

handle_v4_example :
    handle crowded env (text "bound")
    ≡ encoded crowded (record { kind = text "bound"; data_of = v4_info env }) []
handle_v4_example = handle_v4 crowded env (text "bound") (inl refl) (unfold Dict.get str_eq in refl)

abbrev call : Text → Call
call kind = record { machine = crowded; env = env; kind = kind }

abbrev process : Process
process = record {
  stderr_pipe = none;
  stdout_pipe = none;
  start = none;
  lines = lines_of (outputs (call (text "deconfig") ∷ call (text "bound") ∷ []));
  wait = exited none;
}

abbrev options : ClientOptions
options = record {
  hostname = text "web";
  mac_address = [];
  v6 = false;
  once = false;
  namespace = [];
  handler_script = [];
}
