-- ===== src/Network/Join/Examples.antt =====
-- Join of pkg/plugin/network.go after a CreateEndpoint, and its routes.
use docker_net_dhcp.Shared.{[], ◌∷◌, ◌≡◌, refl, false, none, some}
use docker_net_dhcp.Shared.Text.{text, str_eq}
use docker_net_dhcp.Shared.Dict
use docker_net_dhcp.Shared.Result.{ok}
use docker_net_dhcp.Cache.Ops.{get_network}
use docker_net_dhcp.Cache.Sample.{net_1, bridged}
use docker_net_dhcp.Plugin.{Plugin, no_hint_yet}
use docker_net_dhcp.Network.{net_options}
use docker_net_dhcp.Network.Identify.{CreateEndpointRequest, EndpointInterface}
use docker_net_dhcp.Network.Create.{create_endpoint, set_hint}
use docker_net_dhcp.Network.Create.Sample.{small, serving}
use docker_net_dhcp.Network.Join.{Route, Routes, JoinRequest, JoinResponse, join}
use docker_net_dhcp.Network.Join.Once.{join-create_endpoint}

abbrev request : CreateEndpointRequest
request = record {
  network_id = net_1;
  endpoint_id = text "ep3";
  interface =
      some (record { address = []; address_ipv6 = []; mac_address = text "02:42:ac:11:00:02" });
}

abbrev joining : JoinRequest
joining = record { network_id = net_1; endpoint_id = text "ep3"; sandbox_key = text "key" }

abbrev default_via : Route
default_via = record { dst = none; gw = some (text "10.0.0.1"); from_kernel = false }

abbrev lan : Route
lan = record { dst = some (text "10.1.0.0/16"); gw = none; from_kernel = false }

abbrev routes : Routes
routes bridge v6 = default_via ∷ lan ∷ []

abbrev hinted : Plugin
hinted = record small {
  join_hints = (text "ep3", record no_hint_yet { gateway = text "10.0.0.254" }) ∷ [];
}

-- what CreateEndpoint answers
abbrev taken : EndpointInterface
taken = record { address = text "192.168.107.51/24"; address_ipv6 = []; mac_address = [] }

join-create_endpoint_example :
    (res : JoinResponse) × ((join serving routes joining
        (create_endpoint serving request small).0).1
      ≡ ok res)
unfolding Dict.get str_eq net_options get_network create_endpoint set_hint
join-create_endpoint_example =
    join-create_endpoint serving serving routes request (text "key") small (some taken) bridged refl
      refl

abbrev joined : JoinResponse
joined = record {
  src_name = text "ep3-dh";
  dst_prefix = text "eth";
  gateway = text "10.0.0.254";
  gateway_ipv6 = [];
  static_routes =
      record { destination = text "10.1.0.0/16"; next_hop = text "<nil>"; route_type = 1 } ∷ [];
}
