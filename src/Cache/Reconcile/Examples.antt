-- ===== src/Cache/Reconcile/Examples.antt =====
-- The theorems on Reconcile of pkg/plugin/cache.go at a small cache.
use docker_net_dhcp.Shared.{[], ◌∷◌, ◌&&◌, not, none, some, if◌then◌else◌, ◌≡◌, refl}
use docker_net_dhcp.Shared.Text.{str_eq, cut_prefix}
use docker_net_dhcp.Shared.Dict
use docker_net_dhcp.Driver.{is_dhcp_plugin, matches}
use docker_net_dhcp.Cache.Sample.{
  fine, net_1, ep_1, ep_2, endpoint, cache, docker_network, decode_bridged,
}
use docker_net_dhcp.Cache.Disk
use docker_net_dhcp.Cache.Ops.{get_endpoint, get_metadata}
use docker_net_dhcp.Cache.Reconcile.{listed, global, plugin_networks, reconcile}
use docker_net_dhcp.Cache.Reconcile.Orphans.{is_attached}
use docker_net_dhcp.Cache.Reconcile.Networks.{renewed, entry-reconcile}
use docker_net_dhcp.Cache.Reconcile.Effect.{is_some, endpoint-reconcile}

docker_has_network : Dict.get net_1 (plugin_networks (docker_network ∷ []) []) ≡ some docker_network
unfolding plugin_networks is_dhcp_plugin Dict.get Dict.put str_eq cut_prefix matches
docker_has_network = refl

entry-reconcile_example :
    Dict.get net_1 (reconcile decode_bridged fine (listed []) cache).networks
    ≡ elim (Dict.get net_1 (plugin_networks [] [])) [
      | none ↦ if str_eq net_1 global then Dict.get net_1 cache.networks else none
      | some n ↦ renewed decode_bridged net_1 n (Dict.get net_1 cache.networks)
    ]
entry-reconcile_example = entry-reconcile decode_bridged fine [] cache net_1

endpoint-reconcile_example :
    (get_endpoint net_1 ep_2 (reconcile decode_bridged fine (listed (docker_network ∷ [])) cache)
      ≡ (if is_attached docker_network ep_2 then get_endpoint net_1 ep_2 cache else none))
    × (get_metadata net_1 ep_2 (reconcile decode_bridged fine (listed (docker_network ∷ [])) cache)
        ≡ (if is_some (get_endpoint net_1 ep_2 cache) && not (is_attached docker_network ep_2)
            then none
            else get_metadata net_1 ep_2 cache))
endpoint-reconcile_example =
    endpoint-reconcile decode_bridged fine (docker_network ∷ []) cache net_1 ep_2 docker_network
      docker_has_network

-- The endpoint of Docker's container stays, and the orphan goes.
reconciled_run :
    (get_endpoint net_1 ep_1 (reconcile decode_bridged fine (listed (docker_network ∷ [])) cache)
      ≡ some (endpoint ep_1))
    × (get_endpoint net_1 ep_2 (reconcile decode_bridged fine (listed (docker_network ∷ [])) cache)
        ≡ none)
unfolding get_endpoint reconcile is_dhcp_plugin Dict.get Dict.put Dict.del Dict.has Dict.Range.sweep
    Disk.save str_eq cut_prefix matches
reconciled_run = (refl, refl)
