-- ===== src/Network.antt =====
-- pkg/plugin/network.go: the requests on networks and endpoints. What the kernel, Docker, the clock
-- and the disk answer while a request runs is a `World`; the ids that Docker gives have twelve
-- characters at least, so that no `id[:12]` panics.
pub mod Identify
pub mod Create
pub mod Join
pub mod Settle
pub mod Recover
pub mod History
pub mod Bridge
pub mod Stops
mod Examples
use docker_net_dhcp.Shared.{
  ℕ, List, [], ◌∷◌, ◌++◌, Bool, true, false, ◌&&◌, not, Option, none, some, if◌then◌else◌, take,
}
use docker_net_dhcp.Shared.Text.{Text, text, str_eq, is_empty}
use docker_net_dhcp.Shared.Dict
use docker_net_dhcp.Shared.Dict.{Dict}
use docker_net_dhcp.Shared.Result.{Result, ok, err, or_fail, ◌>>=◌}
use docker_net_dhcp.Driver.{DhcpNetworkOptions, is_dhcp_plugin}
use docker_net_dhcp.Macgen.{Format, format_colon, format_hyphen, format_dot}
use docker_net_dhcp.Cache.State.{NetworkState}
use docker_net_dhcp.Cache.Disk.{Outcome}
use docker_net_dhcp.Cache.Ops.{
  CacheError, get_network, get_endpoint, set_network, delete_endpoint, delete_network,
}
use docker_net_dhcp.Cache.Reconcile.{Inspect}
use docker_net_dhcp.Errors.{
  Error, bridge_required, not_bridge, bridge_used, wrapped, other, caching,
}
use docker_net_dhcp.Udhcpc.{ClientOptions, Info}
use docker_net_dhcp.Pending.{Pending, push_pending_container, upsert_pending_meta}
use docker_net_dhcp.Plugin.{Plugin, link_del, stop}
use docker_net_dhcp.Plugin.Events.{Settings}

-- an entry of ContainerList, as far as the plugin reads it
pub record Summary : Type 0 where
  pub id : Text
  pub names : List Text
  pub networks : Dict Settings

-- the options that CreateEndpoint gives to udhcpc.GetIP
abbrev pub lease_options : Text → Text → Bool → ClientOptions
lease_options hostname mac v6 = record {
  hostname = hostname;
  mac_address = mac;
  v6 = v6;
  once = false;
  namespace = [];
  handler_script = [];
}

-- The answers to a request: the type of a link by its name, Docker's networks and containers, what
-- mapstructure decodes (`decoded` holds what it filled in even where `decode_opts` fails), the error
-- of LinkAdd, the k-th lease that udhcpc obtains, and what the plugin's other goroutines do while
-- CreateEndpoint sleeps after its k-th attempt.
pub record World : Type 0 where
  pub now : ℕ
  pub outcome : Outcome
  pub decode_opts : Dict Text → Option DhcpNetworkOptions
  pub decoded : Dict Text → DhcpNetworkOptions
  pub link_by_name : Text → Result Error Text
  pub network_list : Option (List Inspect)
  pub network_inspect : Text → Option Inspect
  pub container_list : Option (List Summary)
  pub during_sleep : ℕ → Plugin → Plugin
  pub link_add_error : Option Error
  pub get_ip : ℕ → ClientOptions → Result Error Info
  pub parse_addr : Text → Option Text

-- r.Options[util.OptionsKeyGeneric] is `generic`
pub record CreateNetworkRequest : Type 0 where
  pub network_id : Text
  pub generic : Dict Text

pub record EndpointRequest : Type 0 where
  pub network_id : Text
  pub endpoint_id : Text

-- NetworkState{ID: id, Options: opts}
abbrev pub bare_state : Text → DhcpNetworkOptions → NetworkState
bare_state id opts = record {
  id = id;
  options = opts;
  endpoints = none;
  container_map = none;
  metadata_map = none;
}

-- whether one of Docker's networks, other than the new one, is of this plugin and has the bridge
unfoldable pub conflicts :
    (Dict Text → Option DhcpNetworkOptions) → Text → Text → List Inspect → Bool
conflicts decode_opts bridge id [] = false
conflicts decode_opts bridge id (n ∷ ns) =
    let rest = conflicts decode_opts bridge id ns in
    if is_dhcp_plugin n.driver
    then elim (decode_opts n.options) [
      | none ↦ rest
      | some opts ↦ if str_eq opts.bridge bridge && not (str_eq n.id id) then true else rest
    ]
    else rest

-- the test for a conflict; a list that Docker does not give is no conflict
unfoldable pub in_use : World → CreateNetworkRequest → DhcpNetworkOptions → Bool
unfolding conflicts
in_use w r opts = elim w.network_list [
  | none ↦ false
  | some nets ↦ conflicts w.decode_opts opts.bridge r.network_id nets
]

-- the part of CreateNetwork that precedes the change of the cache
unfoldable pub checked_options : World → CreateNetworkRequest → Result Error DhcpNetworkOptions
unfolding in_use
checked_options w r = do
  opts ← or_fail (other (text "options")) (w.decode_opts r.generic)
  if is_empty opts.bridge then err bridge_required else elim (w.link_by_name opts.bridge) [
    | err e ↦ err (wrapped (text "failed to lookup interface") e)
    | ok kind ↦
        if str_eq kind (text "bridge")
        then (if not opts.ignore_conflicts && in_use w r opts then err bridge_used else ok opts)
        else err not_bridge
  ]

abbrev pub cache_failure : Option CacheError → Option Error
cache_failure none = none
cache_failure (some e) = some (wrapped (text "failed to save network state to cache") (caching e))

-- CreateNetwork
unfoldable pub create_network : World → CreateNetworkRequest → Plugin → Plugin × Option Error
create_network w r p = elim (checked_options w r) [
  | err e ↦ (p, some e)
  | ok opts ↦
      let (c, e) = set_network w.outcome (bare_state r.network_id opts) p.cache in
      (record p { cache = c }, cache_failure e)
]

-- DeleteNetwork, which reports no error
unfoldable pub remove_network : World → Text → Plugin → Plugin
remove_network w network_id p = record p { cache = (delete_network w.outcome network_id p.cache).0 }

-- vethPairNames
abbrev pub veth_pair_names : Text → Text × Text
veth_pair_names id = (text "dh-" ++ take 12 id, take 12 id ++ text "-dh")

-- netOptions
unfoldable pub net_options : World → Text → Plugin → Plugin × Result Error DhcpNetworkOptions
net_options w id p = elim (get_network id p.cache) [
  | some state ↦ (p, ok state.options)
  | none ↦ elim (w.network_inspect id) [
    | none ↦ (p, err (wrapped (text "failed to get info from Docker") (other id)))
    | some n ↦
        let opts = w.decoded n.options in
        (record p { cache = (set_network w.outcome (bare_state id opts) p.cache).0 }, ok opts)
  ]
]

-- macFormatFromOpts
unfoldable pub mac_format_from_opts : DhcpNetworkOptions → Format
mac_format_from_opts opts =
    if str_eq opts.mac_format (text "hyphen")
    then format_hyphen
    else if str_eq opts.mac_format (text "dot")
    then format_dot
    else format_colon

-- the manager of an endpoint is taken out of the plugin and stopped
unfoldable pub drop_manager : Text → Plugin → Plugin
drop_manager endpoint_id p = elim (Dict.get endpoint_id p.persistent_dhcp) [
  | none ↦ p
  | some m ↦ record p {
    persistent_dhcp = Dict.del endpoint_id p.persistent_dhcp;
    calls = p.calls ++ stop endpoint_id ∷ [];
  }
]

-- what Leave remembers of a container for its restart
unfoldable pub remember : World → EndpointRequest → Plugin → Plugin
remember w r p = elim (get_endpoint r.network_id r.endpoint_id p.cache) [
  | none ↦ p
  | some ep ↦ if is_empty ep.seed_name then p else record p {
    pending =
        upsert_pending_meta w.now r.network_id ep.seed_name ep.hostname
          (push_pending_container w.now r.network_id ep.seed_name ep.hostname false p.pending);
  }
]

-- Leave, which reports no error
unfoldable pub leave : World → EndpointRequest → Plugin → Plugin
unfolding remember drop_manager
leave w r p =
    let q = drop_manager r.endpoint_id (remember w r p) in
    record q { cache = (delete_endpoint w.outcome r.network_id r.endpoint_id q.cache).0 }

-- the host's link goes, if the kernel has it
unfoldable pub drop_link : World → Text → Plugin → Plugin
drop_link w host p = elim (w.link_by_name host) [
  | err e ↦ p
  | ok kind ↦ record p { calls = p.calls ++ link_del host ∷ [] }
]

-- DeleteEndpoint, which reports no error
unfoldable pub remove_endpoint : World → EndpointRequest → Plugin → Plugin
unfolding drop_link drop_manager
remove_endpoint w r p =
    let q = drop_manager r.endpoint_id (drop_link w (veth_pair_names r.endpoint_id).0 p) in
    record q { cache = (delete_endpoint w.outcome r.network_id r.endpoint_id q.cache).0 }
