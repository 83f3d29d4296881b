-- ===== src/Network/Create/Sample.antt =====
-- A small plugin and a kernel and DHCP server that serve it, for the examples of pkg/plugin/network.go.
use docker_net_dhcp.Shared.{[], ◌∷◌, true, none, some}
use docker_net_dhcp.Shared.Text.{text}
use docker_net_dhcp.Shared.Result.{ok}
use docker_net_dhcp.Driver.{DhcpNetworkOptions}
use docker_net_dhcp.Cache.Sample.{net_1, cache, docker_network, fine, bridged, decode_bridged}
use docker_net_dhcp.Pending.History.{start}
use docker_net_dhcp.Plugin.{Plugin}
use docker_net_dhcp.Network.{World}
use docker_net_dhcp.Network.Identify.{CreateEndpointRequest}

abbrev pub dual_stack : DhcpNetworkOptions
dual_stack = record bridged { ipv6 = true }

abbrev pub small : Plugin
small = record { cache = cache; pending = start; join_hints = []; persistent_dhcp = []; calls = [] }

-- a kernel and a DHCP server that serve every request
abbrev pub serving : World
serving = record {
  now = 7;
  outcome = fine;
  decode_opts = decode_bridged;
  decoded = λ input. bridged;
  link_by_name = λ name. ok (text "bridge");
  network_list = some (docker_network ∷ []);
  network_inspect = λ id. some docker_network;
  container_list = none;
  during_sleep = λ k p. p;
  link_add_error = none;
  get_ip = λ k o.
      ok (record { ip = text "192.168.107.51/24"; gateway = text "192.168.107.253"; domain = [] });
  parse_addr = λ s. some s;
}

abbrev pub request : CreateEndpointRequest
request = record { network_id = net_1; endpoint_id = text "ep3"; interface = none }
