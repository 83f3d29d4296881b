-- ===== src/Network/History/Examples.antt =====
-- A create event and a CreateEndpoint at pkg/plugin/network.go, one after the other.
use docker_net_dhcp.Shared.{refl}
use docker_net_dhcp.Cache.Sample.{net_1, fine}
use docker_net_dhcp.Pending.{queue_of}
use docker_net_dhcp.Pending.History
use docker_net_dhcp.Pending.Compose.{IsUnique}
use docker_net_dhcp.Plugin.{Plugin}
use docker_net_dhcp.Plugin.Events.{on_message}
use docker_net_dhcp.Plugin.Events.Sample.{docker, message}
use docker_net_dhcp.Network.Create.{create_endpoint}
use docker_net_dhcp.Network.Create.Sample.{small, serving, request}
use docker_net_dhcp.Network.History.{Reach, here, next, handles, creates_endpoint, queues-IsUnique}

-- the plugin after the event, and after the request
abbrev told : Plugin
told = on_message docker 5 fine message small

abbrev served : Plugin
served = (create_endpoint serving request told).0

served-reached : Reach small served
served-reached =
    next (next here (handles docker 5 fine message))
      (creates_endpoint serving request (λ k q. History.here))

queues-IsUnique_example : IsUnique (queue_of net_1 served.pending)
queues-IsUnique_example = queues-IsUnique refl served-reached net_1
