-- ===== src/Network/Examples.antt =====
-- CreateNetwork, Leave and DeleteEndpoint of pkg/plugin/network.go at examples.
use docker_net_dhcp.Shared.{◌+◌, ◌∷◌, none, [], ◌≡◌, ◌⊎◌, refl, some}
use docker_net_dhcp.Shared.Text.{text, str_eq, cut_prefix}
use docker_net_dhcp.Shared.Dict
use docker_net_dhcp.Driver.{DhcpNetworkOptions, is_dhcp_plugin, matches}
use docker_net_dhcp.Cache.State.{NetworkState}
use docker_net_dhcp.Cache.Disk.{save}
use docker_net_dhcp.Cache.Ops.{CacheError, get_endpoint, set_network}
use docker_net_dhcp.Cache.Sample.{net_1, ep_1, bridged}
use docker_net_dhcp.Plugin.{Plugin}
use docker_net_dhcp.Errors.{Error, wrapped, caching}
use docker_net_dhcp.Network.{EndpointRequest, CreateNetworkRequest, create_network, checked_options}
use docker_net_dhcp.Network.Bridge.{IsAllowed, create_network_exclusive, create_network_keeps}
use docker_net_dhcp.Network.Stops.{stops, leaves, deletes, remove_all, stop_once}
use docker_net_dhcp.Network.Create.Sample.{small, serving}

abbrev again : CreateNetworkRequest
again = record { network_id = net_1; generic = [] }

create_network_exclusive_example :
    (opts : DhcpNetworkOptions) × IsAllowed serving again opts
    × (state : NetworkState) × (Dict.get net_1 (create_network serving again small).0.cache.networks
        ≡ some state)
    × (state.options ≡ opts)
unfolding create_network is_dhcp_plugin str_eq checked_options matches cut_prefix set_network save
create_network_exclusive_example = create_network_exclusive serving again small refl

create_network_keeps_example :
    (get_endpoint net_1 ep_1 (create_network serving again small).0.cache
      ≡ get_endpoint net_1 ep_1 small.cache)
    × ((x : Error)
        → (create_network serving again small).1 ≡ some x
        → ((create_network serving again small).0 ≡ small)
          ⊎ ((why : CacheError) × (x
                ≡ wrapped (text "failed to save network state to cache") (caching why))))
create_network_keeps_example = create_network_keeps serving again small net_1 ep_1

-- a plugin with a manager for the first endpoint
abbrev managing : Plugin
managing = record small {
  persistent_dhcp =
      (
        ep_1,
        record {
          network_id = net_1;
          endpoint_id = ep_1;
          sandbox_key = [];
          options = bridged;
          last_ip = none;
          last_ipv6 = none;
          hostname = [];
        },
      )
      ∷ [];
}

abbrev removal : EndpointRequest
removal = record { network_id = net_1; endpoint_id = ep_1 }

stop_once_example :
    let q = remove_all (leaves serving removal ∷ deletes serving removal ∷ []) managing in
    (stops ep_1 q.calls ≡ 0 + 1) × (Dict.get ep_1 q.persistent_dhcp ≡ none)
unfolding Dict.get Dict.has str_eq
stop_once_example = stop_once (leaves serving removal ∷ []) [] (deletes serving removal) managing
