-- ===== src/Plugin/Events/Examples.antt =====
-- Docker's events on a small plugin, as the tests of pkg/plugin/pending_test.go have them.
use docker_net_dhcp.Shared.{[], some, ◌≡◌, refl}
use docker_net_dhcp.Shared.Text.{text, str_eq, trim_prefix}
use docker_net_dhcp.Shared.Dict
use docker_net_dhcp.Driver.{is_dhcp_plugin, matches}
use docker_net_dhcp.Cache.Sample.{cache, docker_network, fine, net_1}
use docker_net_dhcp.Pending.{queue_of, pop_pending_container}
use docker_net_dhcp.Pending.History.{start}
use docker_net_dhcp.Plugin.{Plugin}
use docker_net_dhcp.Plugin.Events.{on_message}
use docker_net_dhcp.Plugin.Events.Sample.{web, docker, message_of}
use docker_net_dhcp.Plugin.Events.Queues.{pop-create}

abbrev fresh : Plugin
fresh = record { cache = cache; pending = start; join_hints = []; persistent_dhcp = []; calls = [] }

pop-create_example :
    (pop_pending_container net_1
      (on_message docker 5 fine (message_of (text "create")) fresh).pending).1
    ≡ some (text "web", text "web")
unfolding trim_prefix is_dhcp_plugin matches queue_of Dict.get str_eq
pop-create_example =
    pop-create docker 5 fine (message_of (text "create")) web docker_network fresh refl refl refl
      refl refl refl tt
