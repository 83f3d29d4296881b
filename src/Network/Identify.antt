-- ===== src/Network/Identify.antt =====
-- How CreateEndpoint of pkg/plugin/network.go finds out which container an endpoint is for: by the
-- MAC address of the request, by the queue of pending containers, or by elimination.
use docker_net_dhcp.Shared.{
  ℕ, zero, suc, ◌+◌, List, [], ◌∷◌, Bool, false, ◌&&◌, ◌||◌, not, Option, none, some, if◌then◌else◌,
  keep,
}
use docker_net_dhcp.Shared.Text.{Text, text, str_eq, is_empty, trim_prefix}
use docker_net_dhcp.Shared.Dict.{Dict}
use docker_net_dhcp.Cache.State.{EndpointState, or_made}
use docker_net_dhcp.Cache.Ops.{get_network}
use docker_net_dhcp.Pending.{pop_pending_container, lookup_pending_meta}
use docker_net_dhcp.Plugin.{Plugin, JoinHint}
use docker_net_dhcp.Plugin.Events.{Settings}
use docker_net_dhcp.Network.{World, Summary}

pub record EndpointInterface : Type 0 where
  pub address : Text
  pub address_ipv6 : Text
  pub mac_address : Text

pub record CreateEndpointRequest : Type 0 where
  pub network_id : Text
  pub endpoint_id : Text
  pub interface : Option EndpointInterface

-- the variables `seedName` and `hostname`
pub record Identity : Type 0 where
  pub seed_name : Text
  pub hostname : Text

abbrev pub unknown : Identity
unknown = record { seed_name = []; hostname = [] }

-- the MAC address of the request, or "" where it has none
abbrev pub requested_mac : CreateEndpointRequest → Text
requested_mac r = elim r.interface [ none ↦ [] | some i ↦ i.mac_address ]

-- the first endpoint of the cache with this MAC address and a seed name
unfoldable pub find_by_mac : Text → Dict EndpointState → Identity
find_by_mac mac [] = unknown
find_by_mac mac ((id, ep) ∷ endpoints) =
    if str_eq ep.mac_address mac && not (is_empty ep.seed_name)
    then record { seed_name = ep.seed_name; hostname = ep.hostname }
    else find_by_mac mac endpoints

unfoldable pub proactive : CreateEndpointRequest → Plugin → Identity
unfolding find_by_mac
proactive r p =
    if is_empty (requested_mac r) then unknown else elim (get_network r.network_id p.cache) [
      | none ↦ unknown
      | some state ↦ find_by_mac (requested_mac r) (or_made state.endpoints)
    ]

-- the attempts to pop a pending container, with the attempts left and the number of the next one
unfoldable pub wait_pending : World → Text → ℕ → ℕ → Plugin → Plugin × Identity
wait_pending w network_id zero attempt p = (p, unknown)
wait_pending w network_id (suc left) attempt p =
    let (pending, popped) = pop_pending_container network_id p.pending in
    let q = record p { pending = pending } in
    elim popped [
      | some (name, hostname) ↦ (q, record { seed_name = name; hostname = hostname })
      | none ↦ wait_pending w network_id left (attempt + 1) (w.during_sleep attempt q)
    ]

-- the settings of a container on the network, which may be given by its name
unfoldable pub find_settings : Text → Dict Settings → Option Settings
find_settings network_id [] = none
find_settings network_id ((name, settings) ∷ networks) =
    if str_eq settings.network_id network_id || str_eq name network_id
    then some settings
    else find_settings network_id networks

-- claimedNames[name]
unfoldable pub is_claimed : Text → Dict JoinHint → Bool
is_claimed name [] = false
is_claimed name ((id, hint) ∷ hints) =
    not (is_empty hint.seed_name) && str_eq hint.seed_name name || is_claimed name hints

abbrev pub container_name : Summary → Text
container_name c = elim c.names [ [] ↦ [] | name ∷ names ↦ trim_prefix (text "/") name ]

-- a container on the network that has no other endpoint there, and that no endpoint has claimed
unfoldable pub is_candidate : CreateEndpointRequest → Dict JoinHint → Summary → Bool
unfolding find_settings is_claimed
is_candidate r hints c = elim (find_settings r.network_id c.networks) [
  | none ↦ false
  | some settings ↦
      if not (is_empty settings.endpoint_id) && not (str_eq settings.endpoint_id r.endpoint_id)
      then false
      else not (is_claimed (container_name c) hints)
]

-- a single candidate is taken; among several the plugin does not guess
abbrev pub only_candidate : Identity → List Summary → Identity
only_candidate before [] = before
only_candidate before (c ∷ []) = elim c.names [
  | [] ↦ before
  | name ∷ names ↦ record { seed_name = container_name c; hostname = container_name c }
]
only_candidate before (c ∷ d ∷ cs) = before

unfoldable pub deep_fallback : World → CreateEndpointRequest → Plugin → Identity → Identity
unfolding is_candidate
deep_fallback w r p before = elim w.container_list [
  | none ↦ before
  | some ctrs ↦ only_candidate before (keep (is_candidate r p.join_hints) ctrs)
]

-- a missing hostname is looked up in the metadata
unfoldable pub enrich : Text → Plugin → Identity → Identity
enrich network_id p who =
    if is_empty who.hostname && not (is_empty who.seed_name)
    then elim (lookup_pending_meta network_id who.seed_name p.pending) [
      | none ↦ who
      | some hostname ↦ if is_empty hostname then who else record who { hostname = hostname }
    ]
    else who

-- `for attempt := 0; attempt < 15; attempt++`, unless the container is known
abbrev pub or_wait : World → CreateEndpointRequest → Plugin → Identity → Plugin × Identity
or_wait w r p who = if is_empty who.seed_name then wait_pending w r.network_id 15 0 p else (p, who)

abbrev pub or_fallback : World → CreateEndpointRequest → Plugin → Identity → Identity
or_fallback w r p who = if is_empty who.seed_name then deep_fallback w r p who else who

-- the identification as a whole
unfoldable pub identify : World → CreateEndpointRequest → Plugin → Plugin × Identity
unfolding proactive enrich
identify w r p =
    let (q, who) = or_wait w r p (proactive r p) in
    (q, enrich r.network_id q (or_fallback w r q who))
