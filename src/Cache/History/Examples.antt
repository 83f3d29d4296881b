-- ===== src/Cache/History/Examples.antt =====
-- The theorems on the file of the cache (pkg/plugin/cache.go) at a small cache.
use docker_net_dhcp.Shared.{[], none, some, ◌≡◌, ◌≢◌, ◌⊎◌}
use docker_net_dhcp.Cache.Json.{encode_networks}
use docker_net_dhcp.Cache.Disk.{NetworkCache, document, save}
use docker_net_dhcp.Cache.Disk.Atomic.{save_atomic}
use docker_net_dhcp.Json.{Json}
use docker_net_dhcp.Shared.Text.{Text}
use docker_net_dhcp.Shared.Dict
use docker_net_dhcp.Shared.Dict.{Dict, member}
use docker_net_dhcp.Cache.State.{NetworkState}
use docker_net_dhcp.Cache.Ops.{set_endpoint, delete_network}
use docker_net_dhcp.Cache.Sample.{fine, read_only, net_1, ep_1, endpoint, cache, decode_bridged}
use docker_net_dhcp.Cache.History.{Reach, here, next, sets_endpoint, deletes_network}

save_atomic_example :
    ((save read_only cache).0.networks ≡ cache.networks)
    × (((save read_only cache).1 ≡ none)
          × ((save read_only cache).0.disk
              ≡ record { file = some (document (encode_networks cache.networks)); tmp = none })
        ⊎ ((save read_only cache).1 ≢ none)
          × ((save read_only cache).0.disk.file ≡ cache.disk.file))
save_atomic_example = save_atomic read_only cache

-- an endpoint is stored, then the network is deleted and the save fails
abbrev later : NetworkCache
later = (delete_network read_only net_1 (set_endpoint fine net_1 (endpoint ep_1) cache).0).0

abbrev two_steps : Reach decode_bridged cache later
two_steps =
    next (next here (sets_endpoint fine net_1 (endpoint ep_1))) (deletes_network read_only net_1)

abbrev nothing : Json → Dict NetworkState
nothing doc = []
