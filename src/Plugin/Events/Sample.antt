-- ===== src/Plugin/Events/Sample.antt =====
-- A container and Docker's answers about it, for the examples of pkg/plugin/plugin.go.
use docker_net_dhcp.Shared.{[], ◌∷◌, some}
use docker_net_dhcp.Shared.Text.{Text, text}
use docker_net_dhcp.Cache.Sample.{docker_network, net_1}
use docker_net_dhcp.Plugin.Events.{Docker, Container, Message}

abbrev pub web : Container
web = record {
  id = text "0123456789abcdef";
  name = text "/web";
  hostname = text "0123456789ab";
  network_mode = text "lan";
  networks = (text "lan", record { network_id = net_1; endpoint_id = [] }) ∷ [];
}

abbrev pub docker : Docker
docker = record { container_inspect = λ id. some web; network_inspect = λ id. some docker_network }

abbrev pub message_of : Text → Message
message_of action = record {
  type_of = text "container";
  action = action;
  actor_id = web.id;
  name = text "web";
  container = [];
}

abbrev pub message : Message
message = message_of (text "create")
