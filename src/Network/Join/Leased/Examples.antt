-- ===== src/Network/Join/Leased/Examples.antt =====
-- A lease on its way from the handler of udhcpc to the answer to Join (pkg/plugin/network.go).
use docker_net_dhcp.Shared.{[], ◌∷◌, true, false, none, some, ◌≡◌, refl}
use docker_net_dhcp.Shared.Text.{Text, text, str_eq, cut_prefix}
use docker_net_dhcp.Shared.Dict
use docker_net_dhcp.Shared.Dict.{Dict}
use docker_net_dhcp.Cache.Ops.{get_network}
use docker_net_dhcp.Cache.Sample.{bridged}
use docker_net_dhcp.Udhcpc
use docker_net_dhcp.Udhcpc.{Process, exited}
use docker_net_dhcp.Udhcpc.Lease.{lines_of}
use docker_net_dhcp.Udhcpc.Handler.{Machine, v4_info, handle}
use docker_net_dhcp.Udhcpc.Handler.Reach.{Call, outputs}
use docker_net_dhcp.Network.{World, net_options}
use docker_net_dhcp.Network.Identify.{EndpointInterface, CreateEndpointRequest}
use docker_net_dhcp.Network.Create.{create_endpoint, set_hint}
use docker_net_dhcp.Network.Create.Sample.{request, small, serving}
use docker_net_dhcp.Network.Join.{Route, Routes, JoinResponse, join}
use docker_net_dhcp.Network.Join.Leased.{IsObtained, address_of, open_address, join-handle}

abbrev machine : Machine
machine = record {
  hardware_addr = λ name. some (2 ∷ 66 ∷ 172 ∷ 17 ∷ 0 ∷ 2 ∷ []);
  to4 = λ ip. some (192 ∷ 168 ∷ 107 ∷ 50 ∷ []);
  parse_cidr = λ s. none;
  opens = λ network name. true;
  frames = [];
  packets = [];
  writable = true;
  announced = 2;
}

abbrev env : Dict Text
env =
    (text "interface", text "ep3-dh")
    ∷ (text "ip", text "192.168.107.50")
    ∷ (text "mask", text "24")
    ∷ (text "router", text "192.168.107.253")
    ∷ []

abbrev call : Text → Call
call kind = record { machine = machine; env = env; kind = kind }

abbrev client : Process
client = record {
  stderr_pipe = none;
  stdout_pipe = none;
  start = none;
  lines = lines_of (outputs (call (text "deconfig") ∷ call (text "bound") ∷ []));
  wait = exited none;
}

-- every lease is the client's
abbrev leasing : World
leasing = record serving { get_ip = λ k o. Udhcpc.get_ip client (text "ep3-dh") o }

abbrev known_request : CreateEndpointRequest
known_request = record request {
  interface =
      some (record { address = []; address_ipv6 = []; mac_address = text "02:42:ac:11:00:02" });
}

abbrev default_via : Route
default_via = record { dst = none; gw = some (text "10.0.0.1"); from_kernel = false }

abbrev routes : Routes
routes bridge v6 = default_via ∷ []

abbrev leased : EndpointInterface
leased = record { address = text "192.168.107.50/24"; address_ipv6 = []; mac_address = [] }

abbrev joined : JoinResponse
joined = record {
  src_name = text "ep3-dh";
  dst_prefix = text "eth";
  gateway = text "192.168.107.253";
  gateway_ipv6 = [];
  static_routes = [];
}

client-IsObtained : IsObtained client (call (text "bound"))
unfolding Dict.get str_eq
client-IsObtained = record {
  before = call (text "deconfig") ∷ [];
  after = [];
  fine = record { piped = refl; readable = refl; started = refl; ended = refl };
  lines = refl;
  lease = refl;
  single = refl;
  writable = refl;
  final = tt;
}

join-handle_example :
    (address_of (some leased) ≡ open_address known_request (v4_info env).ip)
    × (joined.gateway ≡ (v4_info env).gateway)
unfolding Dict.get str_eq net_options get_network create_endpoint set_hint join Udhcpc.get_ip handle
    Udhcpc.encode_event cut_prefix Dict.put
join-handle_example =
    join-handle leasing leasing routes known_request (text "key") small bridged client
      (call (text "bound")) (some leased) joined refl refl (λ o. refl) client-IsObtained (λ p. cc)
      refl refl
