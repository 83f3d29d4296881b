-- ===== src/Cache/Ops/Examples.antt =====
-- The theorems on the methods of pkg/plugin/cache.go at a small cache.
use docker_net_dhcp.Shared.{none, some, if◌then◌else◌, ◌≡◌, refl}
use docker_net_dhcp.Shared.Text.{str_eq}
use docker_net_dhcp.Shared.Dict
use docker_net_dhcp.Cache.Sample.{fine, net_1, ep_1, metadata, cache}
use docker_net_dhcp.Cache.Disk
use docker_net_dhcp.Cache.Ops.{get_metadata, get_endpoint, delete_network, prune_metadata}
use docker_net_dhcp.Cache.Ops.Delete.{get-delete_network}
use docker_net_dhcp.Cache.Ops.Prune.{fresh, get-prune_metadata}

get-delete_network_example :
    (get_endpoint net_1 ep_1 (delete_network fine net_1 cache).0
      ≡ (if str_eq net_1 net_1 then none else get_endpoint net_1 ep_1 cache))
    × (get_metadata net_1 ep_1 (delete_network fine net_1 cache).0
        ≡ (if str_eq net_1 net_1 then none else get_metadata net_1 ep_1 cache))
    × (Dict.get net_1 (delete_network fine net_1 cache).0.networks
        ≡ (if str_eq net_1 net_1 then none else Dict.get net_1 cache.networks))
get-delete_network_example = get-delete_network fine cache net_1 net_1 ep_1

get-prune_metadata_example :
    (get_metadata net_1 ep_1 (prune_metadata 1000 fine 600 cache)
      ≡ fresh 1000 600 (get_metadata net_1 ep_1 cache))
    × (get_endpoint net_1 ep_1 (prune_metadata 1000 fine 600 cache) ≡ get_endpoint net_1 ep_1 cache)
get-prune_metadata_example = get-prune_metadata 1000 600 fine cache net_1 ep_1

-- Metadata of age 900 goes when 600 are allowed, and the endpoint stays.
pruned_run : get_metadata net_1 ep_1 (prune_metadata 1000 fine 600 cache) ≡ none
unfolding prune_metadata get_metadata Dict.get Dict.put Dict.del Dict.Range.sweep Disk.save str_eq
pruned_run = refl

unpruned_run : get_metadata net_1 ep_1 (prune_metadata 1000 fine 900 cache) ≡ some metadata
unfolding prune_metadata get_metadata Dict.get Dict.put Dict.del Dict.Range.sweep Disk.save str_eq
unpruned_run = refl
