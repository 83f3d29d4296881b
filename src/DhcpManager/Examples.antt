-- ===== src/DhcpManager/Examples.antt =====
-- Two leases and a run of collisions at pkg/plugin/dhcp_manager.go, as in its tests.
use docker_net_dhcp.Shared.{[], ◌∷◌, ◌≡◌, true, false, none, some, List}
use docker_net_dhcp.Shared.Text.{text, str_eq}
use docker_net_dhcp.Cache.Sample.{net_1, ep_1, bridged}
use docker_net_dhcp.Udhcpc.{Event}
use docker_net_dhcp.DhcpManager.{Kernel, Progress, process_events}
use docker_net_dhcp.DhcpManager.Collisions.{process_events_lem}

abbrev pub kernel : Kernel
kernel = record {
  parse_addr = λ s. some s;
  parse_ip = λ s. s;
  same_addr = str_eq;
  same_ip = str_eq;
  refuses = λ s. false;
  ready = true;
  gateways = [];
}

abbrev pub started : Progress
started = record {
  collision_count = 0;
  manager = record {
    network_id = net_1;
    endpoint_id = ep_1;
    sandbox_key = [];
    options = bridged;
    last_ip = none;
    last_ipv6 = none;
    hostname = text "web";
  };
  calls = [];
  sleeps = [];
}

abbrev pub collision : Event
collision = record {
  kind = text "collision";
  data_of = record { ip = []; gateway = []; domain = [] };
}

abbrev pub bound : Event
bound = record {
  kind = text "bound";
  data_of = record { ip = text "10.0.0.7/24"; gateway = text "10.0.0.1"; domain = [] };
}

abbrev events : List Event
events = collision ∷ collision ∷ collision ∷ collision ∷ bound ∷ collision ∷ []

process_events_example :
    ((process_events kernel false events started).collision_count ≡ 1)
    × ((process_events kernel false events started).sleeps ≡ 3 ∷ 4 ∷ [])
unfolding str_eq
process_events_example = process_events_lem kernel false events started
