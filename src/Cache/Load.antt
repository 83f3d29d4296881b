-- ===== src/Cache/Load.antt =====
-- `load` and `NewNetworkCache` of pkg/plugin/cache.go: what a plugin that starts reads of the file
-- that an earlier one saved.
pub mod Entries
pub mod Back
use docker_net_dhcp.Shared.{[], Bool, true, false, Option, none, some, if◌then◌else◌}
use docker_net_dhcp.Shared.Text.{Text, text}
use docker_net_dhcp.Shared.Dict.{Dict}
use docker_net_dhcp.Driver.{DhcpNetworkOptions}
use docker_net_dhcp.Json.{Json}
use docker_net_dhcp.Json.Decode.{
  same_name, decode_string, decode_bool, decode_number, decode_time, decode_object, decode_map,
  with_value,
}
use docker_net_dhcp.Cache.State.{EndpointState, ContainerMetadata, NetworkState, no_options}
use docker_net_dhcp.Cache.Disk.{Content, document, fragment, Disk, NetworkCache}

abbrev pub no_endpoint : EndpointState
no_endpoint = record {
  id = [];
  sandbox_key = [];
  mac_address = [];
  ip = [];
  ipv6 = [];
  gateway = [];
  hostname = [];
  seed_name = [];
}

abbrev pub no_metadata : ContainerMetadata
no_metadata = record { name = []; hostname = []; created_at = 0 }

abbrev pub no_network : NetworkState
no_network = record {
  id = [];
  options = no_options;
  endpoints = none;
  container_map = none;
  metadata_map = none;
}

unfoldable pub endpoint_field : Text → Json → EndpointState → Option EndpointState
unfolding same_name decode_string
endpoint_field k v ep =
    if same_name k (text "id")
    then with_value (decode_string v ep.id) (λ s. record ep { id = s })
    else if same_name k (text "sandbox_key")
    then with_value (decode_string v ep.sandbox_key) (λ s. record ep { sandbox_key = s })
    else if same_name k (text "mac_address")
    then with_value (decode_string v ep.mac_address) (λ s. record ep { mac_address = s })
    else if same_name k (text "ip")
    then with_value (decode_string v ep.ip) (λ s. record ep { ip = s })
    else if same_name k (text "ipv6")
    then with_value (decode_string v ep.ipv6) (λ s. record ep { ipv6 = s })
    else if same_name k (text "gateway")
    then with_value (decode_string v ep.gateway) (λ s. record ep { gateway = s })
    else if same_name k (text "hostname")
    then with_value (decode_string v ep.hostname) (λ s. record ep { hostname = s })
    else if same_name k (text "seed_name")
    then with_value (decode_string v ep.seed_name) (λ s. record ep { seed_name = s })
    else some ep

unfoldable pub decode_endpoint : Json → EndpointState → Option EndpointState
unfolding decode_object
decode_endpoint = decode_object endpoint_field

unfoldable pub metadata_field : Text → Json → ContainerMetadata → Option ContainerMetadata
unfolding same_name decode_string decode_time
metadata_field k v meta =
    if same_name k (text "name")
    then with_value (decode_string v meta.name) (λ s. record meta { name = s })
    else if same_name k (text "hostname")
    then with_value (decode_string v meta.hostname) (λ s. record meta { hostname = s })
    else if same_name k (text "created_at")
    then with_value (decode_time v meta.created_at) (λ t. record meta { created_at = t })
    else some meta

unfoldable pub decode_metadata : Json → ContainerMetadata → Option ContainerMetadata
unfolding decode_object
decode_metadata = decode_object metadata_field

unfoldable pub options_field : Text → Json → DhcpNetworkOptions → Option DhcpNetworkOptions
unfolding same_name decode_string decode_bool decode_number
options_field k v opts =
    if same_name k (text "Bridge")
    then with_value (decode_string v opts.bridge) (λ s. record opts { bridge = s })
    else if same_name k (text "IPv6")
    then with_value (decode_bool v opts.ipv6) (λ b. record opts { ipv6 = b })
    else if same_name k (text "LeaseTimeout")
    then with_value (decode_number v opts.lease_timeout) (λ d. record opts { lease_timeout = d })
    else if same_name k (text "IgnoreConflicts")
    then with_value (decode_bool v opts.ignore_conflicts)
        (λ b. record opts { ignore_conflicts = b })
    else if same_name k (text "SkipRoutes")
    then with_value (decode_bool v opts.skip_routes) (λ b. record opts { skip_routes = b })
    else if same_name k (text "MacFormat")
    then with_value (decode_string v opts.mac_format) (λ s. record opts { mac_format = s })
    else some opts

unfoldable pub decode_options : Json → DhcpNetworkOptions → Option DhcpNetworkOptions
unfolding decode_object
decode_options = decode_object options_field

unfoldable pub network_field : Text → Json → NetworkState → Option NetworkState
unfolding same_name decode_string decode_options decode_map decode_endpoint decode_metadata
network_field k v net =
    if same_name k (text "id")
    then with_value (decode_string v net.id) (λ s. record net { id = s })
    else if same_name k (text "options")
    then with_value (decode_options v net.options) (λ o. record net { options = o })
    else if same_name k (text "endpoints")
    then with_value (decode_map decode_endpoint no_endpoint v net.endpoints)
        (λ m. record net { endpoints = m })
    else if same_name k (text "container_map")
    then with_value (decode_map decode_string [] v net.container_map)
        (λ m. record net { container_map = m })
    else if same_name k (text "metadata_map")
    then with_value (decode_map decode_metadata no_metadata v net.metadata_map)
        (λ m. record net { metadata_map = m })
    else some net

unfoldable pub decode_network : Json → NetworkState → Option NetworkState
unfolding decode_object
decode_network = decode_object network_field

-- json.Unmarshal into an empty map: the document `null` makes the map nil, which reads as an empty
-- one; `partial` is what it leaves in the map where a value is of the wrong kind
unfoldable pub unmarshal : (Json → Dict NetworkState) → Json → Dict NetworkState
unfolding decode_map decode_network
unmarshal partial doc = elim (decode_map decode_network no_network doc (some [])) [
  | none ↦ partial doc
  | some none ↦ []
  | some (some networks) ↦ networks
]

-- load on a new cache: without a file, or one that it may read, and with a file that holds no
-- document, the cache stays empty
unfoldable pub load : (Json → Dict NetworkState) → Bool → Option Content → Dict NetworkState
unfolding unmarshal
load partial readable none = []
load partial readable (some fragment) = []
load partial readable (some (document doc)) = if readable then unmarshal partial doc else []

-- NewNetworkCache
unfoldable pub new_network_cache : (Json → Dict NetworkState) → Bool → Disk → NetworkCache
unfolding load
new_network_cache partial readable d = record { networks = load partial readable d.file; disk = d }
