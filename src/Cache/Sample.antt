-- ===== src/Cache/Sample.antt =====
-- A small cache and Docker's answers, shared by the examples of pkg/plugin/cache.go.
use docker_net_dhcp.Shared.{[], ◌∷◌, true, false, Option, none, some, refl}
use docker_net_dhcp.Shared.Text.{Text, text, str_eq}
use docker_net_dhcp.Shared.Dict.{Dict, member}
use docker_net_dhcp.Driver.{DhcpNetworkOptions}
use docker_net_dhcp.Cache.State.{EndpointState, ContainerMetadata, NetworkState, no_options}
use docker_net_dhcp.Cache.Maps.{IsStored, IsCache}
use docker_net_dhcp.Cache.Json.{encode_networks}
use docker_net_dhcp.Cache.Disk.{NetworkCache, Outcome, written, document}
use docker_net_dhcp.Cache.Reconcile.{Inspect}

abbrev pub fine : Outcome
fine = record { marshal = true; mkdir = true; write = written; rename = true; remove = true }

abbrev pub read_only : Outcome
read_only = record { marshal = true; mkdir = false; write = written; rename = true; remove = true }

abbrev pub net_1 : Text
net_1 = text "net1"

abbrev pub ep_1 : Text
ep_1 = text "ep1"

abbrev pub ep_2 : Text
ep_2 = text "ep2"

abbrev pub endpoint : Text → EndpointState
endpoint id = record {
  id = id;
  sandbox_key = text "/var/run/docker/netns/abc";
  mac_address = text "02:42:ac:11:00:02";
  ip = text "192.168.107.50/24";
  ipv6 = [];
  gateway = text "192.168.107.253";
  hostname = text "web";
  seed_name = text "web";
}

abbrev pub metadata : ContainerMetadata
metadata = record { name = text "web"; hostname = text "web"; created_at = 100 }

abbrev pub bridged : DhcpNetworkOptions
bridged = record no_options { bridge = text "br0" }

abbrev pub network : NetworkState
network = record {
  id = net_1;
  options = bridged;
  endpoints = some ((ep_1, endpoint ep_1) ∷ (ep_2, endpoint ep_2) ∷ []);
  container_map = none;
  metadata_map = some ((ep_1, metadata) ∷ (ep_2, metadata) ∷ []);
}

abbrev pub networks : Dict NetworkState
networks = (net_1, network) ∷ []

abbrev pub cache : NetworkCache
cache = record {
  networks = networks;
  disk = record { file = some (document (encode_networks networks)); tmp = none };
}

-- Docker has the network, and one container on it, at the first endpoint.
abbrev pub docker_network : Inspect
docker_network = record {
  id = net_1;
  driver = text "ghcr.io/thehaven/docker-net-dhcp:golang";
  options = [];
  containers = (text "ctr1", ep_1) ∷ [];
}

-- Options that always decode to the same value.
abbrev pub decode_bridged : Dict Text → Option DhcpNetworkOptions
decode_bridged input = some bridged

network-IsStored : IsStored network
unfolding member str_eq
network-IsStored = record {
  endpoints_distinct = (refl, (refl, tt));
  containers_distinct = tt;
  metadata_distinct = (refl, (refl, tt));
}

pub networks-IsCache : IsCache networks
unfolding member
networks-IsCache = record { networks_distinct = (refl, tt); each_stored = (network-IsStored, tt) }
