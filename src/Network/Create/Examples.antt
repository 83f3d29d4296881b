-- ===== src/Network/Create/Examples.antt =====
-- Requests on a small plugin, and the theorems on pkg/plugin/network.go at them.
use docker_net_dhcp.Shared.{[], ◌∷◌, not, if◌then◌else◌, ◌≡◌, refl, some}
use docker_net_dhcp.Shared.Text.{text, str_eq, is_empty}
use docker_net_dhcp.Shared.Dict
use docker_net_dhcp.Shared.Result.{ok}
use docker_net_dhcp.Macgen.{generate}
use docker_net_dhcp.Cache.Sample.{cache, network, net_1, ep_1, bridged, endpoint}
use docker_net_dhcp.Cache.Ops.{get_endpoint, get_network, delete_endpoint}
use docker_net_dhcp.Cache.Disk.{save}
use docker_net_dhcp.Pending.{queue_of}
use docker_net_dhcp.Plugin.{Plugin}
use docker_net_dhcp.Network.{net_options, mac_format_from_opts, leave, remove_endpoint}
use docker_net_dhcp.Network.Identify.{CreateEndpointRequest, EndpointInterface}
use docker_net_dhcp.Network.Create.Sample.{request, small, dual_stack, serving}
use docker_net_dhcp.Network.Create.{create_endpoint}
use docker_net_dhcp.Network.Create.Mac.{create_endpoint-generated, identified}
use docker_net_dhcp.Network.Create.Lease.{Works, Balanced}
use docker_net_dhcp.Network.Create.Rollback.{create_endpoint-Balanced}
use docker_net_dhcp.Network.Create.Restart.{restart_keeps_mac}
use docker_net_dhcp.Network.Create.Dual.{create_endpoint_dual}

serving-Works : Works serving
serving-Works = record {
  finds = λ name. (text "bridge", refl);
  adds = refl;
  leases = λ k o. (
    record { ip = text "192.168.107.51/24"; gateway = text "192.168.107.253"; domain = [] },
    refl,
  );
}

restart_keeps_mac_example :
    (j : EndpointInterface) × ((create_endpoint serving request (
        remove_endpoint serving
          (record { network_id = net_1; endpoint_id = ep_1 })
          (leave serving (record { network_id = net_1; endpoint_id = ep_1 }) small))).1
      ≡ ok (some j))
    × (generate (record { seed = text "web"; format = mac_format_from_opts bridged })
        ≡ ok j.mac_address)
unfolding get_endpoint Dict.get str_eq queue_of net_options get_network remove_endpoint
    delete_endpoint leave save Dict.put
restart_keeps_mac_example =
    restart_keeps_mac serving serving serving request ep_1 small (endpoint ep_1) bridged refl
      (λ p. cc) refl serving-Works refl refl (λ p. cc)

create_endpoint-Balanced_example : Balanced request small (create_endpoint serving request small)
create_endpoint-Balanced_example = create_endpoint-Balanced serving request (λ k p. refl) small

-- the same network with IPv6, and an endpoint that the request does not describe
abbrev dual_small : Plugin
dual_small = record small {
  cache = record cache { networks = (net_1, record network { options = dual_stack }) ∷ [] };
}

create_endpoint-generated_example :
    (j : EndpointInterface) × ((create_endpoint serving request small).1 ≡ ok (some j))
    × (generate (record {
      seed =
          if not (is_empty (identified serving request small).hostname)
          then (identified serving request small).hostname
          else if not (is_empty (identified serving request small).seed_name)
          then (identified serving request small).seed_name
          else request.endpoint_id;
      format = mac_format_from_opts bridged;
    })
        ≡ ok j.mac_address)
unfolding Dict.get str_eq net_options get_network
create_endpoint-generated_example =
    create_endpoint-generated serving request small bridged serving-Works refl refl (λ p. cc)

abbrev known_request : CreateEndpointRequest
known_request = record request {
  interface =
      some (record { address = []; address_ipv6 = []; mac_address = text "02:42:ac:11:00:02" });
}

abbrev answer : EndpointInterface
answer = record { address = []; address_ipv6 = text "192.168.107.51/24"; mac_address = [] }

create_endpoint_dual_example : answer.address ≡ []
unfolding Dict.get str_eq net_options get_network create_endpoint
create_endpoint_dual_example =
    create_endpoint_dual serving known_request dual_small dual_stack answer refl refl refl
