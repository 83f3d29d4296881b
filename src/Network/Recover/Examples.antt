-- ===== src/Network/Recover/Examples.antt =====
-- The recovery of pkg/plugin/network.go where one namespace is left.
use docker_net_dhcp.Shared.{◌≡◌, ◌||◌, true}
use docker_net_dhcp.Shared.Dict
use docker_net_dhcp.Cache.Sample.{ep_1}
use docker_net_dhcp.Cache.Ops.{get_all}
use docker_net_dhcp.Network.Create.Sample.{small}
use docker_net_dhcp.Network.Recover.{Host, recover, any_network, has-recover}

abbrev host : Host
host = record { exists = λ path. true; starts = λ id. true }

has-recover_example :
    Dict.has ep_1 (recover host small).persistent_dhcp
    ≡ (any_network host ep_1 (get_all small.cache) || Dict.has ep_1 small.persistent_dhcp)
has-recover_example = has-recover host small ep_1
